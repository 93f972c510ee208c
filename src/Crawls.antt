-- ===== src/Crawls.antt =====
-- archivebox/crawls/models.py
pub mod Urls
pub mod Lifecycle
pub mod Pausing
pub mod Kept
pub mod Limits
pub mod Discovery
pub mod Seeding
pub mod Filtering
