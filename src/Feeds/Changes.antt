-- ===== src/Feeds/Changes.antt =====
-- Changes of threads (server/src/feeds/index/mod.rs), and messages to clients and feeds. An address
-- is a number, an encoded message its bytes.
use shamichan.Prelude.{ℕ, List, Bool}
use shamichan.PostBody.Node.{Node}
use shamichan.Payloads.{Post}

pub data Change : Type 0 where
  insert_post : Post → Change
  -- id, body, close_post
  set_body : ℕ → Node → Bool → Change

pub record ChangeSet : Type 0 where
  pub source_feed : ℕ
  pub message : List ℕ
  pub changes : List Change

-- What a feed sends: messages to a client, a disconnection of one, and changes to the index feed.
pub data Sent : Type 0 where
  send_message : ℕ → List ℕ → Sent
  send_batch : ℕ → List (List ℕ) → Sent
  disconnect : ℕ → Sent
  change_set : ℕ → ChangeSet → Sent
  -- bodies of open posts, to the flusher that persists them
  persist_bodies : List (ℕ × Node) → Sent
  -- `Pulse` to the feed itself, after `PULSE_INTERVAL`
  pulse_later : Sent
