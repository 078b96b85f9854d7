-- ===== src/Client/State/Agent/Registered.antt =====
-- What registers, changes and closes posts keeps their index (client/src/state/agent.rs).
use shamichan.Prelude.{
  ℕ, ◌≡◌, refl, List, [], ◌∷◌, Option, none, some, true, false, if◌then◌else◌, ◌==◌,
}
use shamichan.Prelude.Eq.{ℕ_eq}
use shamichan.PostBody.Node.{ℤ, Node, Patch}
use shamichan.PostBody.Diff as Diff
use shamichan.Payloads.{Post, Thread, ThreadWithPosts}
use shamichan.Collections.HashMap
use shamichan.Collections.HashMap.{HashMap}
use shamichan.Collections.DoubleSetMap
use shamichan.Client.Location.{Location, as_u64}
use shamichan.Client.State.Keys.{int_Eq, change_Eq}
use shamichan.Client.State.Requests.{Change, Flags}
use shamichan.Client.State.Agent.{
  as_i32, Agent, FeedSyncState, not_requested, receiving, synced, trigger, set_app,
  set_location_no_sync,
}
use shamichan.Client.State.Agent.Requested.{
  add_post, add_posts, add_thread, values, register_thread, register_each, register_threads,
  all_received, received_posts, synced_pages, normal_feed, complete, page_received, from_back,
  register_page, hook_all, unhook_all, put_post, patched, patch_post_body, closed_post, is_id,
  close_post, meta_in, scrolling, handle, handle_input, flushed,
}
use shamichan.Client.State.Agent.Requested as Requested
use shamichan.Client.State.Agent.Indexed.{
  IsIndexed, Indexed-if, Indexed-register_post, Indexed-put_post, Indexed-set_location_no_sync,
}

pub Indexed-add_posts :
    (a : Agent) (ps : List Post) → IsIndexed a.app → IsIndexed (add_posts a ps).app
unfolding trigger
Indexed-add_posts a [] h = h
Indexed-add_posts a (p ∷ ps) h =
    Indexed-add_posts (add_post a p) ps (Indexed-register_post a.app p h)

pub Indexed-register_thread :
    (a : Agent) (t : ThreadWithPosts) → IsIndexed a.app → IsIndexed (register_thread a t).app
unfolding register_thread trigger
Indexed-register_thread a t h = Indexed-add_posts (add_thread a t.thread) (values t.posts) h

pub Indexed-register_each :
    (a : Agent) (ts : List ThreadWithPosts) → IsIndexed a.app → IsIndexed (register_each a ts).app
Indexed-register_each a [] h = h
Indexed-register_each a (t ∷ ts) h =
    Indexed-register_each (register_thread a t) ts (Indexed-register_thread a t h)

pub Indexed-register_threads :
    (a : Agent) (ts : List ThreadWithPosts)
    → IsIndexed a.app
    → IsIndexed (register_threads a ts).app
unfolding register_threads
Indexed-register_threads a ts h = go a.feed_sync_state
  where
    every : Location → Agent
    every loc = register_each (record a { feed_sync_state = synced loc.feed [] }) ts

    go :
        (s : FeedSyncState)
        → IsIndexed
            (elim s as (λ x. Agent) [
              | receiving loc thread pages flags ↦
                  if as_u64 loc.feed == 0 then set_location_no_sync (every loc) loc flags else a
              | _ ↦ a
            ]).app
    go (receiving loc thread pages flags) =
        Indexed-if (as_u64 loc.feed == 0) (set_location_no_sync (every loc) loc flags) a
          (Indexed-set_location_no_sync (every loc) loc flags
            (Indexed-register_each (record a { feed_sync_state = synced loc.feed [] }) ts h))
          h
    go (synced feed pages) = h
    go not_requested = h

pub Indexed-complete :
    (a : Agent) (loc : Location) (t : Thread) (pages : HashMap ℤ (Option (List Post)))
    (flags : Flags) (id : ℕ)
    → IsIndexed a.app
    → IsIndexed (complete a loc t pages flags id).app
unfolding trigger
Indexed-complete a loc t pages flags id h =
    let b = record a { feed_sync_state = synced loc.feed (synced_pages pages []) } in
    let c = trigger (trigger b Change.thread_list) (Change.thread id) in
    let d = set_app c (record c.app { threads = HashMap.insert c.app.threads t.id t }) in
    Indexed-set_location_no_sync (add_posts d (received_posts pages))
      (record loc { feed = normal_feed loc.feed t.page_count }) flags
      (Indexed-add_posts d (received_posts pages) h)

pub Indexed-page_received :
    (a : Agent) (s : FeedSyncState) (id n : ℕ) (ps : List Post)
    → IsIndexed a.app
    → IsIndexed (Requested.page_in a id n ps s).app
unfolding trigger
Indexed-page_received a (receiving loc (some t) pages flags) id n ps h =
    let pages' =
      HashMap.insert (HashMap.insert pages (as_i32 n) (some ps)) (from_back t.page_count n) none in
    let waiting = record a { feed_sync_state = receiving loc (some t) pages' flags } in
    Indexed-if (as_u64 loc.feed == id) (page_received a loc t pages flags id n ps) a
      (Indexed-if (all_received pages') (complete a loc t pages' flags id) waiting
        (Indexed-complete a loc t pages' flags id h) h)
      h
Indexed-page_received a (receiving loc none pages flags) id n ps h = h
Indexed-page_received a (synced feed pages) id n ps h =
    let b =
      trigger (record a { feed_sync_state = synced feed (HashMap.insert pages n true) })
        (Change.thread id) in
    Indexed-if (as_u64 feed == id) (add_posts b ps) a (Indexed-add_posts b ps h) h
Indexed-page_received a not_requested id n ps h = h

pub Indexed-register_page :
    (a : Agent) (ps : List Post) → IsIndexed a.app → IsIndexed (register_page a ps).app
unfolding register_page
Indexed-register_page a [] h = h
Indexed-register_page a (p ∷ ps) h =
    Indexed-page_received a a.feed_sync_state p.thread p.page (p ∷ ps) h

pub Indexed-hook_all :
    (a : Agent) (hs : List Change) (id : ℕ) → IsIndexed a.app → IsIndexed (hook_all a hs id).app
Indexed-hook_all a [] id h = h
Indexed-hook_all a (c ∷ hs) id h =
    Indexed-hook_all (record a { hooks = DoubleSetMap.insert a.hooks c id }) hs id h

pub Indexed-unhook_all :
    (a : Agent) (hs : List Change) (id : ℕ) → IsIndexed a.app → IsIndexed (unhook_all a hs id).app
Indexed-unhook_all a [] id h = h
Indexed-unhook_all a (c ∷ hs) id h =
    Indexed-unhook_all (record a { hooks = DoubleSetMap.remove_by_key_value a.hooks c id }) hs id h

pub Indexed-patched :
    (a : Agent) (id : ℕ) (p : Post) (r : Diff.Patched Node)
    → HashMap.get a.app.posts id ≡ some p
    → IsIndexed a.app
    → IsIndexed (patched a id p r).app
unfolding trigger
Indexed-patched a id p (body, none) e h =
    Indexed-put_post a id p (record p { body = body }) h e refl refl refl
Indexed-patched a id p (body, some er) e h = h

pub Indexed-patch_post_body :
    (a : Agent) (id : ℕ) (patch : Patch)
    → IsIndexed a.app
    → IsIndexed (patch_post_body a id patch).app
unfolding patch_post_body
Indexed-patch_post_body a id patch h = go (HashMap.get a.app.posts id) refl
  where
    go :
        (o : Option Post)
        → HashMap.get a.app.posts id ≡ o
        → IsIndexed
            (elim o as (λ x. Agent) [
              | none ↦ a
              | some p ↦ patched a id p (Diff.patch patch p.body)
            ]).app
    go none e = h
    go (some p) e = Indexed-patched a id p (Diff.patch patch p.body) e h

pub Indexed-closed_post :
    (a : Agent) (id : ℕ) (body : Node) (o : Option Post)
    → HashMap.get a.app.posts id ≡ o
    → IsIndexed a.app
    → IsIndexed (closed_post a id body o).app
unfolding trigger
Indexed-closed_post a id body none e h = h
Indexed-closed_post a id body (some p) e h =
    Indexed-put_post a id p (record p { body = body; is_open = false }) h e refl refl refl

pub Indexed-close_post :
    (a : Agent) (id : ℕ) (body : Node) → IsIndexed a.app → IsIndexed (close_post a id body).app
unfolding close_post trigger
Indexed-close_post a id body h =
    let b = closed_post a id body (HashMap.get a.app.posts id) in
    let k = Indexed-closed_post a id body (HashMap.get a.app.posts id) refl h in
    Indexed-if (is_id b.app.open_post_id id)
      (trigger (set_app b (record b.app { open_post_id = none })) Change.open_post_id) b k k

pub Indexed-meta_in :
    (a : Agent) (t : Thread) (s : FeedSyncState) → IsIndexed a.app → IsIndexed (meta_in a t s).app
Indexed-meta_in a t (receiving loc thread pages flags) h =
    Indexed-if (as_u64 loc.feed == t.id)
      (record a { feed_sync_state = receiving loc (some t) pages flags }) a h h
Indexed-meta_in a t (synced feed pages) h = h
Indexed-meta_in a t not_requested h = h
