-- ===== src/Client.antt =====
-- src/client: what a client's connection asks for, and how it is forwarded.
pub mod Conn
pub mod Socks5
pub mod Forward
pub mod Associate
