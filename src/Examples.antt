-- ===== src/Examples.antt =====
-- The theorems at concrete inputs.
pub mod PostBody
pub mod Codec
pub mod Collections
pub mod Server
pub mod Timer
pub mod MtContext
pub mod Feeds
pub mod Client
pub mod Locations
pub mod App
pub mod Body
