-- ===== src/Os/Runs.antt =====
-- Runs of the functions of smbclient/_os.py and shutil.py: for each result, an input where its conditions
-- hold.
pub mod Copying
pub mod Trees
pub mod Entries
