-- ===== src/Client.antt =====
-- The client: its connection, the form of the open post, its location and the state of the app
-- (client/src).
pub mod Location
pub mod State
pub mod Connection
pub mod Posting
