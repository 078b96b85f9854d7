-- ===== src/Feeds/Writer/Propagation.antt =====
-- Which changes of posts reach the index feed (server/src/feeds/thread/writer.rs).
use shamichan.Prelude.{ℕ, ◌≡◌, refl, List, ◌∷◌, Bool, true, ◌||◌, leb, ◌==◌, arith}
use shamichan.Codec.MessageType.{MessageType}
use shamichan.Feeds.Changes.{Change}
use shamichan.Feeds.Last5.Zero.{min-push_all}
use shamichan.Feeds.Writer.{Payload, new, write_message, write_global_change, write_post_message}

any_post : (m post_id : ℕ) (b : Bool) → m ≡ 0 → (b || leb m post_id) ≡ true
any_post m post_id b e = ground arith

-- A writer that was given any post of its thread besides the first one propagates the message of
-- every post to the index feed, with its change, also of a post that is not among the last five.
pub write_post_message_global :
    (feed index_feed id : ℕ) (ids : List ℕ) (post_id : ℕ) (t : MessageType) (payload : Payload)
    (change : Change)
    → let w = new feed index_feed (id ∷ ids) in
      write_post_message w post_id t payload change
      ≡ write_global_change (write_message w t payload) t payload change
unfolding write_post_message new
write_post_message_global feed index_feed id ids post_id t payload change =
    rw (any_post _ post_id (post_id == feed) (min-push_all feed id ids)) refl
