-- ===== src/Feeds/Thread/Requests.antt =====
-- The messages to a thread feed (server/src/feeds/thread/mod.rs) as data.
use shamichan.Prelude.{ℕ, List}
use shamichan.PostBody.Node.{Node, ℤ}
use shamichan.Feeds.Thread.{Env, ThreadFeed, Outcome}
use shamichan.Feeds.Thread.Handlers.{
  InsertPost, wake_up, set_body, insert_post, fetch, fetch_feed_data,
}
use shamichan.Feeds.Thread.Edits.{close_post, try_make_pages_immutable}
use shamichan.Feeds.Thread.Pulse.{pulse}

pub data Request : Type 0 where
  wakes makes_immutable : Request
  -- with the clients that the registry gives
  pulses : List ℕ → Request
  -- page, post, body
  sets_body : ℕ → ℕ → List ℕ → Request
  closes : ℕ → ℕ → Node → Request
  -- the time of the clock
  inserts : InsertPost → ℕ → Request
  fetches : ℤ → ℕ → Request
  fetches_feed_data : ℕ → Request

unfoldable pub handle : Env → ThreadFeed → Request → Outcome
unfolding wake_up set_body insert_post fetch fetch_feed_data close_post try_make_pages_immutable
    pulse
handle env f wakes = wake_up f
handle env f makes_immutable = try_make_pages_immutable env f
handle env f (pulses clients) = pulse env f clients
handle env f (sets_body page id body) = set_body f page id body
handle env f (closes page id body) = close_post env f page id body
handle env f (inserts req now) = insert_post env f req now
handle env f (fetches id client) = fetch env f id client
handle env f (fetches_feed_data client) = fetch_feed_data env f client
