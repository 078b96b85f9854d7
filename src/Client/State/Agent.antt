-- ===== src/Client/State/Agent.antt =====
-- The agent that keeps the state of the app and tells its changes (client/src/state/agent.rs): the
-- triggers, the locations and the feeds. `app` is the global state, which only this agent writes;
-- the logs record what it asks of the world, in order. None is a panic.
pub mod Requested
pub mod Indexed
pub mod Navigated
pub mod Registered
pub mod Run
use shamichan.Prelude.{
  ℕ, zero, suc, ◌+◌, ◌-◌, ◌%◌, ◌^◌, List, [], ◌∷◌, ◌++◌, Option, none, some, Bool, true, false,
  if◌then◌else◌, ltb, ◌==◌, ◌&&◌, not,
}
use shamichan.Prelude.Eq.{Eq, ℕ_eq}
use shamichan.PostBody.Node.{ℤ, pos, negsuc}
use shamichan.Payloads.{Post, Thread}
use shamichan.Collections.HashMap
use shamichan.Collections.HashMap.{HashMap}
use shamichan.Collections.HashSet
use shamichan.Collections.HashSet.{HashSet}
use shamichan.Collections.DoubleSetMap.{DoubleSetMap}
use shamichan.Client.Location.{FeedId, Focus, Location, as_u64, path}
use shamichan.Client.State as App
use shamichan.Client.State.Keys.{int_eq, int_Eq, change_Eq}
use shamichan.Client.State.Requests.{Change, Flags}

pub data FeedSyncState : Type 0 where
  not_requested : FeedSyncState
  -- the location, the thread's metainformation, the pages that are or have to be received, and the
  -- flags of the fetch
  receiving : Location → Option Thread → HashMap ℤ (Option (List Post)) → Flags → FeedSyncState
  -- the feed and its pages, with whether they have been received
  synced : FeedId → HashMap ℕ Bool → FeedSyncState

-- What is sent to the server.
pub data Sent : Type 0 where
  fetch_page : ℤ → Sent
  -- in one message: the feed, and a page of a thread
  synchronize : ℕ → Option ℤ → Sent

pub record Agent : Type 0 where
  pub app : App.State
  pub hooks : DoubleSetMap Change ℕ
  pub queued_triggers : HashSet ℕ
  -- the focus that the next frame scrolls to
  pub render_task : Option Focus
  pub feed_sync_state : FeedSyncState
  -- the handlers that were notified
  pub notified : List ℕ
  pub sent : List Sent
  pub scrolled : List Focus
  -- the paths that were pushed to the history
  pub history : List (List ℕ)

abbrev pub same_feed : FeedId → FeedId → Bool
same_feed FeedId.index FeedId.index = true
same_feed FeedId.catalog FeedId.catalog = true
same_feed (FeedId.thread a p) (FeedId.thread b q) = a == b && int_eq p q
same_feed f g = false

abbrev pub same_focus : Option Focus → Option Focus → Bool
same_focus none none = true
same_focus (some Focus.top) (some Focus.top) = true
same_focus (some Focus.bottom) (some Focus.bottom) = true
same_focus (some (Focus.post a)) (some (Focus.post b)) = a == b
same_focus f g = false

abbrev pub same_location : Location → Location → Bool
same_location l m = same_feed l.feed m.feed && same_focus l.focus m.focus

abbrev pub queue_all : HashSet ℕ → List ℕ → HashSet ℕ
queue_all queue [] = queue
queue_all queue (id ∷ ids) = queue_all (HashSet.insert queue id) ids

abbrev pub subscribers : Option (HashSet ℕ) → List ℕ
subscribers none = []
subscribers (some ids) = ids

-- `trigger`
unfoldable pub trigger : Agent → Change → Agent
trigger a h = record a {
  queued_triggers = queue_all a.queued_triggers (subscribers (HashMap.get a.hooks.by_key h));
}

-- `flush_triggers`
unfoldable pub flush_triggers : Agent → Agent
flush_triggers a = record a { notified = a.notified ++ a.queued_triggers; queued_triggers = [] }

abbrev pub scroll_to : Agent → Focus → Agent
scroll_to a f = record a { scrolled = a.scrolled ++ f ∷ [] }

abbrev pub send : Agent → Sent → Agent
send a m = record a { sent = a.sent ++ m ∷ [] }

abbrev pub set_app : Agent → App.State → Agent
set_app a s = record a { app = s }

abbrev pub scroll_later : Agent → Option Focus → Agent
scroll_later a none = a
scroll_later a (some f) = record a { render_task = some f }

-- `set_location_no_sync`
unfoldable pub set_location_no_sync : Agent → Location → Flags → Agent
unfolding trigger path
set_location_no_sync a new flags =
    let b = set_app a (record a.app { location = new }) in
    let told = if flags.no_trigger then b else trigger b Change.location in
    let located = if flags.set_state then told else a in
    let later = if flags.scroll_to_focused then scroll_later located new.focus else located in
    if flags.push_state then record later { history = later.history ++ path new ∷ [] } else later

-- The page in the entries of a thread, where it is not there.
abbrev pub add_page :
    Agent → Location → Option Thread → HashMap ℤ (Option (List Post)) → Flags → FeedId → Agent
add_page a new thread pages flags (FeedId.thread id page) = elim (HashMap.get pages page) [
  | none ↦
      send
        (record a { feed_sync_state = receiving new thread (HashMap.insert pages page none) flags })
        (Sent.fetch_page page)
  | some p ↦ record a { feed_sync_state = receiving new thread pages flags }
]
add_page a new thread pages flags feed = record a {
  feed_sync_state = receiving new thread pages flags;
}

abbrev pub first_page : FeedId → Option ℤ
first_page (FeedId.thread id page) = some page
first_page feed = none

abbrev pub first_pages : Option ℤ → HashMap ℤ (Option (List Post))
first_pages none = []
first_pages (some page) = (page, none) ∷ []

-- The request of a feed
abbrev pub request_feed : Agent → Location → Flags → Agent
request_feed a new flags =
    let page = first_page new.feed in
    send (record a { feed_sync_state = receiving new none (first_pages page) flags })
      (Sent.synchronize (as_u64 new.feed) page)

abbrev pub sync_in : Agent → Location → Flags → FeedSyncState → Agent × Bool
sync_in a new flags (receiving loc thread pages old) =
    if as_u64 loc.feed == as_u64 new.feed
    then (add_page a new thread pages old new.feed, true)
    else (request_feed a new flags, true)
sync_in a new flags (synced feed pages) =
    if as_u64 feed == as_u64 new.feed then (a, false) else (request_feed a new flags, true)
sync_in a new flags not_requested = (request_feed a new flags, true)

-- `try_sync_feed`: the agent, and whether a fetch is in progress.
unfoldable pub try_sync_feed : Agent → Location → Flags → Agent × Bool
unfolding as_u64
try_sync_feed a new flags = sync_in a new flags a.feed_sync_state

-- `as u32`
abbrev pub as_u32 : ℤ → ℕ
as_u32 (pos n) = n % 2 ^ 32
as_u32 (negsuc n) = 2 ^ 32 - 1 - n % 2 ^ 32

-- `as i32`
abbrev pub as_i32 : ℕ → ℤ
as_i32 n = let m = n % 2 ^ 32 in if ltb m (2 ^ 31) then pos m else negsuc (2 ^ 32 - 1 - m)

-- A page counted from the back: the sum with `count as i32`, which wraps.
abbrev pub plus_count : ℤ → ℕ → ℤ
plus_count page count = as_i32 (as_u32 page + count)

abbrev pub synced_or_set : Agent × Bool → Location → Flags → Agent
synced_or_set (a, true) new flags = a
synced_or_set (a, false) new flags = set_location_no_sync a new flags

-- Another page of the feed that is synced
abbrev pub page_in : Agent → Location → Flags → FeedId → HashMap ℕ Bool → ℤ → Agent
page_in a new flags feed pages page = elim (HashMap.get pages (as_u32 page)) [
  | none ↦
      set_location_no_sync
        (send
          (record a { feed_sync_state = synced feed (HashMap.insert pages (as_u32 page) false) })
          (Sent.fetch_page page))
        new flags
  | some received ↦ synced_or_set (try_sync_feed a new flags) new flags
]

abbrev pub page_of : Agent → Location → Flags → FeedId → HashMap ℕ Bool → ℕ → ℤ → Option Agent
page_of a new flags feed pages id (pos n) = some (page_in a new flags feed pages (pos n))
page_of a new flags feed pages id (negsuc zero) = elim (HashMap.get a.app.threads id) [
  | none ↦ none
  | some t ↦ some (page_in a new flags feed pages (plus_count (negsuc 0) t.page_count))
]
page_of a new flags feed pages id (negsuc n) = some a

-- The branches of `set_location` where the location changes
abbrev pub navigate : Agent → Location → Flags → FeedSyncState → FeedId → Option Agent
navigate a new flags (synced feed pages) (FeedId.thread id page) =
    if as_u64 feed == id
    then page_of a new flags feed pages id page
    else some (synced_or_set (try_sync_feed a new flags) new flags)
navigate a new flags s feed = some (synced_or_set (try_sync_feed a new flags) new flags)

abbrev pub refocus : Agent → Option Focus → Agent
refocus a none = a
refocus a (some f) = scroll_to a f

-- `set_location`
unfoldable pub set_location : Agent → Location → Flags → Option Agent
unfolding try_sync_feed set_location_no_sync
set_location a new flags =
    if same_location a.app.location new
    then some (if flags.scroll_to_focused then refocus a new.focus else a)
    else navigate a new flags a.feed_sync_state new.feed
