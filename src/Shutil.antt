-- ===== src/Shutil.antt =====
-- smbclient/shutil.py: `rmtree`, and the file attributes that `copymode` and `copystat` set.
pub mod Rmtree
pub mod BasicInfo
pub mod Runs
