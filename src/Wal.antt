-- ===== src/Wal.antt =====
-- internal/store/wal
pub mod Bytes
pub mod Format
pub mod Crc
pub mod Payload
pub mod Header
pub mod Record
pub mod Names
pub mod Scanner
pub mod Disk
pub mod Log
pub mod Open
pub mod History
pub mod Examples
