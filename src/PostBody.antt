-- ===== src/PostBody.antt =====
-- Post bodies (common/src/payloads/post_body.rs).
pub mod Text
pub mod Node
pub mod Nodes
pub mod Diff
pub mod Append
