-- ===== src/Files.antt =====
-- smbclient/_io.py: remote files as Python file objects.
-- Characters are their code points.
pub mod Modes
pub mod Chunks
pub mod RawIo
pub mod Transaction
pub mod Runs
