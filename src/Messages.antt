-- ===== src/Messages.antt =====
-- The message tables of smbprotocol/open.py, session.py, tree.py, ioctl.py, change_notify.py, and the
-- information classes and create contexts of file_info.py, reparse_point.py and create_contexts.py.
pub mod ReadWrite
pub mod SignIn
pub mod Query
pub mod Ioctl
pub mod Controls
pub mod FileInformation
pub mod Notify
pub mod CreateContexts
pub mod Share
pub mod Laws
pub mod Reading
pub mod Writing
pub mod Runs
