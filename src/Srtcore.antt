-- ===== src/Srtcore.antt =====
-- srt-1.5.6/srtcore: routines of the transport core that is built into the program.
pub mod SeqNo
pub mod RollNumber
pub mod Options
pub mod Config
pub mod Socket
pub mod TsbpdTime
pub mod AckWindow
