-- ===== src/Feeds/Thread.antt =====
-- `ThreadFeed` of server/src/feeds/thread/mod.rs and `PageRecord` of server/src/feeds/thread/page.rs.
-- The database, the serializers, the encoders and the parser of post bodies are an environment; the
-- clock and the snapshot of the clients are arguments of the handlers.
pub mod Handlers
pub mod Edits
pub mod Pulse
pub mod Requests
pub mod Keeps
pub mod Scheduled
pub mod Complete
pub mod Opened
pub mod Replayed
use shamichan.Prelude.{
  ℕ, zero, suc, ◌+◌, ◌-◌, List, [], ◌∷◌, ◌++◌, Option, none, some, Bool, true, false, if◌then◌else◌,
  ◌&&◌, not, ltb, ◌==◌, length,
}
use shamichan.Prelude.Eq.{ℕ_eq}
use shamichan.Collections.HashMap
use shamichan.Collections.HashMap.{HashMap}
use shamichan.Codec.MessageType.{MessageType}
use shamichan.PostBody.Node.{Node, Patch}
use shamichan.Payloads.{Post, Thread, ImmutablePage, PostCreationNotification}
use shamichan.Server.MessageCacher.{MessageCacher}
use shamichan.Feeds.Changes.{Change, Sent, pulse_later}
use shamichan.Feeds.Bundle.{Message, Items, Bundle}
use shamichan.Feeds.Bundle
use shamichan.Feeds.Writer.{Writer, Payload}
use shamichan.Feeds.Writer

pub record Env : Type 0 where
  -- `db::get_page`, of a thread and a page
  pub get_page : ℕ → ℕ → Option (List Post)
  pub encode_post : MessageType → Post → Option Message
  pub encode_thread : MessageType → Thread → Option Message
  pub encode_page : ImmutablePage → Option Message
  -- the messages that open and close a page
  pub page_start : Message
  pub page_end : Message
  pub notification : PostCreationNotification → Payload
  pub closing : ℕ → Node → Payload
  pub patching : ℕ → Patch → Payload
  pub deflate : List ℕ → List ℕ
  -- `body::parse`
  pub parse : List ℕ → Bool → Node

pub data PageRecord : Type 0 where
  unfetched : PageRecord
  mutable : Bundle Post → PageRecord
  immutable : Message → PageRecord

pub data Error : Type 0 where
  database encoding page_id_overflow page_not_inserted : Error
  immutable_page post_not_found : ℕ → Error

abbrev pub Pages : Type 0
Pages = HashMap ℕ PageRecord

abbrev pub Bodies : Type 0
Bodies = HashMap ℕ (List ℕ)

pub record ThreadFeed : Type 0 where
  pub clients : List ℕ
  pub deferred_page_fetches : HashMap ℕ (List ℕ)
  pub pending_pulse : Bool
  pub writer : Writer
  pub pending_open_bodies : HashMap ℕ Bodies
  pub thread_meta : MessageCacher Thread Message
  pub pages : Pages

-- What a handler leaves and sends, and the error that ended it.
abbrev pub Outcome : Type 0
Outcome = (ThreadFeed × List Sent) × Option Error

abbrev pub posts_of : List Post → Items Post
posts_of [] = []
posts_of (p ∷ ps) = HashMap.insert (posts_of ps) p.id (record { val = p; cached = none })

-- `PageRecord::new_mutable`
unfoldable pub new_mutable : List Post → PageRecord
unfolding Bundle.new
new_mutable posts = mutable (Bundle.new (posts_of posts))

abbrev pub all_closed : List Post → Bool
all_closed [] = true
all_closed (p ∷ ps) = not p.is_open && all_closed ps

-- `PageRecord::can_be_made_immutable`
unfoldable pub can_be_made_immutable : List Post → Bool
can_be_made_immutable posts = length posts == 100 && all_closed posts

abbrev pub immutable_of : Option Message → Option PageRecord
immutable_of none = none
immutable_of (some msg) = some (immutable msg)

-- `ThreadFeed::schedule_pulse`
unfoldable pub schedule_pulse : ThreadFeed → ThreadFeed × List Sent
schedule_pulse f =
    if f.pending_pulse then (f, []) else (record f { pending_pulse = true }, pulse_later ∷ [])

-- The pages `0..=page_count` of a new feed.
unfoldable pub unfetched_pages : ℕ → Pages
unfetched_pages zero = HashMap.insert [] 0 unfetched
unfetched_pages (suc n) = HashMap.insert (unfetched_pages n) (suc n) unfetched

abbrev pub with_first : Pages → Option (List Post) → Pages
with_first pages none = pages
with_first pages (some posts) = HashMap.insert pages 0 (new_mutable posts)

-- `ThreadFeed::new`
unfoldable pub new : Thread → List ℕ → Option (List Post) → ℕ → ThreadFeed
unfolding unfetched_pages new_mutable Writer.new
new thread last_5_posts first_page index_feed = record {
  clients = [];
  deferred_page_fetches = [];
  pending_pulse = false;
  writer = Writer.new thread.id index_feed last_5_posts;
  pending_open_bodies = [];
  thread_meta = record { val = thread; cached = none };
  pages = with_first (unfetched_pages thread.page_count) first_page;
}

module _ (env : Env) where
  -- `PageRecord::new_immutable`, none for an error
  unfoldable pub new_immutable : ImmutablePage → Option PageRecord
  new_immutable page = immutable_of (env.encode_page page)

  abbrev pub record_of : ℕ → ℕ → Option (List Post) → Option PageRecord
  record_of thread page none = none
  record_of thread page (some posts) =
      if can_be_made_immutable posts
      then new_immutable (record { thread = thread; page = page; posts = posts })
      else some (new_mutable posts)

  -- `ThreadFeed::fetch_page`, none for an error
  unfoldable pub fetch_page : ℕ → ℕ → Option PageRecord
  unfolding can_be_made_immutable new_immutable new_mutable
  fetch_page thread page = record_of thread page (env.get_page thread page)
