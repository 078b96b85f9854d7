-- ===== src/Feeds.antt =====
-- The update feeds of threads and of the thread index (server/src/feeds).
pub mod Last5
pub mod Changes
pub mod Writer
pub mod Bundle
pub mod Index
pub mod Thread
pub mod BodyFlusher
