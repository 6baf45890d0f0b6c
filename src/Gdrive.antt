-- ===== src/Gdrive.antt =====
-- pkg/gdrive: what is modelled of the Google Drive crawler.
pub mod Retry
