-- ===== src/Client/State/Agent/Requested.antt =====
-- The requests to the state agent (client/src/state/agent.rs: `handle_input`, `update`,
-- `disconnected` and what they register).
use shamichan.Prelude.{
  ◌+◌, ◌^◌, ◌%◌, ℕ, ◌-◌, List, [], ◌∷◌, ◌++◌, Option, none, some, Bool, true, false, if◌then◌else◌,
  ◌==◌, ◌&&◌,
}
use shamichan.Prelude.Eq.{ℕ_eq}
use shamichan.PostBody.Node.{ℤ, pos, negsuc, Node, Patch}
use shamichan.PostBody.Diff as Diff
use shamichan.Payloads.{Post, Thread, ThreadWithPosts}
use shamichan.Collections.HashMap
use shamichan.Collections.HashMap.{HashMap}
use shamichan.Collections.HashSet
use shamichan.Collections.DoubleSetMap
use shamichan.Client.Location.{FeedId, Focus, Location, as_u64}
use shamichan.Client.State.{register_post, pair_Eq}
use shamichan.Client.State.Keys.{int_Eq, change_Eq}
use shamichan.Client.State.Requests.{Change, Request, Flags}
use shamichan.Client.State.Agent.{
  Agent, FeedSyncState, receiving, synced, trigger, flush_triggers, set_app, scroll_to,
  set_location, set_location_no_sync, try_sync_feed, plus_count, as_u32, as_i32,
}

-- A post that is told and registered.
abbrev pub add_post : Agent → Post → Agent
add_post a p = let b = trigger a (Change.post p.id) in set_app b (register_post b.app p)

abbrev pub add_posts : Agent → List Post → Agent
add_posts a [] = a
add_posts a (p ∷ ps) = add_posts (add_post a p) ps

abbrev pub set_threads : Agent → HashMap ℕ Thread → Agent
set_threads a ts = set_app a (record a.app { threads = ts })

abbrev pub add_thread : Agent → Thread → Agent
add_thread a t =
    let b = trigger (trigger a Change.thread_list) (Change.thread t.id) in
    set_threads b (HashMap.insert b.app.threads t.id t)

-- The values of a thread's map of posts
abbrev pub values : HashMap ℕ Post → List Post
values [] = []
values ((id, p) ∷ m) = p ∷ values m

-- `register_thread`
unfoldable pub register_thread : Agent → ThreadWithPosts → Agent
unfolding trigger register_post
register_thread a t = add_posts (add_thread a t.thread) (values t.posts)

abbrev pub register_each : Agent → List ThreadWithPosts → Agent
register_each a [] = a
register_each a (t ∷ ts) = register_each (register_thread a t) ts

-- `register_threads`
unfoldable pub register_threads : Agent → List ThreadWithPosts → Agent
unfolding as_u64 register_thread set_location_no_sync
register_threads a ts = elim a.feed_sync_state [
  | receiving loc thread pages flags ↦
      if as_u64 loc.feed == 0
      then set_location_no_sync
          (register_each (record a { feed_sync_state = synced loc.feed [] }) ts) loc flags
      else a
  | _ ↦ a
]

-- `-(page_count as i32 - page as i32)`, which wraps
abbrev pub from_back : ℕ → ℕ → ℤ
from_back count page = as_i32 (page + (2 ^ 32 - count % 2 ^ 32))

abbrev pub is_some : {A : Type 0} → Option A → Bool
is_some none = false
is_some (some x) = true

abbrev pub is_forward : ℤ → Bool
is_forward (pos n) = true
is_forward (negsuc n) = false

-- Every page that is not counted from the back has been received.
abbrev pub all_received : HashMap ℤ (Option (List Post)) → Bool
all_received [] = true
all_received ((id, posts) ∷ pages) =
    (if is_forward id then is_some posts else true) && all_received pages

abbrev pub posts_in : Option (List Post) → List Post
posts_in none = []
posts_in (some ps) = ps

abbrev pub received_posts : HashMap ℤ (Option (List Post)) → List Post
received_posts [] = []
received_posts ((id, posts) ∷ pages) =
    let rest = received_posts pages in if is_forward id then posts_in posts ++ rest else rest

abbrev pub synced_pages : HashMap ℤ (Option (List Post)) → HashMap ℕ Bool → HashMap ℕ Bool
synced_pages [] m = m
synced_pages ((id, posts) ∷ pages) m = synced_pages pages (HashMap.insert m (as_u32 id) true)

-- Only a thread has pages: the other feeds are unreachable here.
abbrev pub normal_feed : FeedId → ℕ → FeedId
normal_feed (FeedId.thread id (negsuc n)) count = FeedId.thread id (plus_count (negsuc n) count)
normal_feed feed count = feed

-- The feed is complete.
abbrev pub complete : Agent → Location → Thread → HashMap ℤ (Option (List Post)) → Flags → ℕ → Agent
complete a loc thread pages flags thread_id =
    let b = record a { feed_sync_state = synced loc.feed (synced_pages pages []) } in
    let c = trigger (trigger b Change.thread_list) (Change.thread thread_id) in
    let d = set_threads c (HashMap.insert c.app.threads thread.id thread) in
    set_location_no_sync (add_posts d (received_posts pages))
      (record loc { feed = normal_feed loc.feed thread.page_count }) flags

-- A page of a feed that is being received
abbrev pub page_received :
    Agent → Location → Thread → HashMap ℤ (Option (List Post)) → Flags → ℕ → ℕ → List Post → Agent
page_received a loc thread pages flags thread_id n posts =
    let pages' =
      HashMap.insert (HashMap.insert pages (as_i32 n) (some posts)) (from_back thread.page_count n)
        none in
    if all_received pages'
    then complete a loc thread pages' flags thread_id
    else record a { feed_sync_state = receiving loc (some thread) pages' flags }

abbrev pub page_in : Agent → ℕ → ℕ → List Post → FeedSyncState → Agent
page_in a thread_id n posts (receiving loc (some thread) pages flags) =
    if as_u64 loc.feed == thread_id
    then page_received a loc thread pages flags thread_id n posts
    else a
page_in a thread_id n posts (synced feed pages) =
    if as_u64 feed == thread_id
    then add_posts
        (trigger (record a { feed_sync_state = synced feed (HashMap.insert pages n true) })
          (Change.thread thread_id))
        posts
    else a
page_in a thread_id n posts s = a

-- `register_page`
unfoldable pub register_page : Agent → List Post → Agent
unfolding trigger register_post set_location_no_sync as_u64
register_page a [] = a
register_page a (p ∷ ps) = page_in a p.thread p.page (p ∷ ps) a.feed_sync_state

abbrev pub hook_all : Agent → List Change → ℕ → Agent
hook_all a [] id = a
hook_all a (h ∷ hs) id = hook_all (record a { hooks = DoubleSetMap.insert a.hooks h id }) hs id

abbrev pub unhook_all : Agent → List Change → ℕ → Agent
unhook_all a [] id = a
unhook_all a (h ∷ hs) id =
    unhook_all (record a { hooks = DoubleSetMap.remove_by_key_value a.hooks h id }) hs id

abbrev pub put_post : Agent → ℕ → Post → Agent
put_post a id p = set_app a (record a.app { posts = HashMap.insert a.app.posts id p })

abbrev pub patched : Agent → ℕ → Post → Diff.Patched Node → Agent
patched a id p (body, none) = trigger (put_post a id (record p { body = body })) (Change.post id)
patched a id p (body, some e) = a

-- The case of `PatchPostBody`
unfoldable pub patch_post_body : Agent → ℕ → Patch → Agent
unfolding trigger Diff.patch
patch_post_body a id patch = elim (HashMap.get a.app.posts id) [
  | none ↦ a
  | some p ↦ patched a id p (Diff.patch patch p.body)
]

abbrev pub closed_post : Agent → ℕ → Node → Option Post → Agent
closed_post a id body none = a
closed_post a id body (some p) =
    trigger (put_post a id (record p { body = body; is_open = false })) (Change.post id)

abbrev pub is_id : Option ℕ → ℕ → Bool
is_id none id = false
is_id (some j) id = j == id

-- The case of `ClosePost`
unfoldable pub close_post : Agent → ℕ → Node → Agent
unfolding trigger
close_post a id body =
    let b = closed_post a id body (HashMap.get a.app.posts id) in
    if is_id b.app.open_post_id id
    then trigger (set_app b (record b.app { open_post_id = none })) Change.open_post_id
    else b

abbrev pub meta_in : Agent → Thread → FeedSyncState → Agent
meta_in a t (receiving loc thread pages flags) =
    if as_u64 loc.feed == t.id
    then record a { feed_sync_state = receiving loc (some t) pages flags }
    else a
meta_in a t s = a

abbrev pub scrolling : Flags
scrolling = record {
  push_state = false;
  set_state = false;
  scroll_to_focused = true;
  no_trigger = false;
}

-- The cases of `handle_input`, before the triggers are flushed.
unfoldable pub handle : Agent → Request → ℕ → Option Agent
unfolding trigger try_sync_feed set_location register_post register_page register_threads
    register_thread patch_post_body close_post as_u64
handle a (Request.notify_change hs) id = some (hook_all a hs id)
handle a (Request.change_notifications remove add) id =
    some (hook_all (unhook_all a remove id) add id)
handle a (Request.navigate_to loc flags) id = set_location a loc flags
handle a (Request.fetch_feed loc) id = some (try_sync_feed a loc scrolling).0
handle a (Request.set_key_id key) id =
    some (set_app a (record a.app { key_pair = record a.app.key_pair { id = key } }))
handle a (Request.register_post p) id =
    let b = trigger (trigger a (Change.thread p.thread)) (Change.post p.id) in
    some (set_app b (register_post b.app p))
handle a (Request.patch_post_body post patch) id = some (patch_post_body a post patch)
handle a (Request.close_post post body) id = some (close_post a post body)
handle a (Request.register_page posts) id = some (register_page a posts)
handle a (Request.register_threads ts) id = some (register_threads a ts)
handle a (Request.register_thread t) id = some (register_thread a t)
handle a (Request.register_thread_meta t) id = some (meta_in a t a.feed_sync_state)
handle a (Request.set_mine post) id =
    some (set_app a (record a.app { mine = HashSet.insert a.app.mine post }))
handle a (Request.set_open_post_id post) id =
    some (trigger (set_app a (record a.app { open_post_id = post })) Change.open_post_id)
handle a (Request.set_used_tags tags) id =
    some (trigger (set_app a (record a.app { used_tags = tags })) Change.used_tags)
handle a (Request.set_time_correction c) id =
    some (trigger (set_app a (record a.app { time_correction = c })) Change.time_correction)
handle a (Request.set_configs c) id =
    some (trigger (set_app a (record a.app { configs = c })) Change.configs)

abbrev pub flushed : Option Agent → Option Agent
flushed none = none
flushed (some a) = some (flush_triggers a)

-- `handle_input`
unfoldable pub handle_input : Agent → Request → ℕ → Option Agent
unfolding handle flush_triggers
handle_input a r id = flushed (handle a r id)

pub data Message : Type 0 where
  scroll : Focus → Message
  -- with the window's location
  popped_state : Location → Message

abbrev pub popping : Flags
popping = record {
  push_state = false;
  set_state = true;
  scroll_to_focused = true;
  no_trigger = false;
}

-- `update`
unfoldable pub update : Agent → Message → Option Agent
unfolding set_location flush_triggers
update a (scroll f) = some (flush_triggers (scroll_to a f))
update a (popped_state loc) = flushed (set_location a loc popping)

-- `disconnected`
unfoldable pub disconnected : Agent → ℕ → Agent
disconnected a id = record a { hooks = DoubleSetMap.remove_by_value a.hooks id }
