-- ===== src/Feeds/Thread/Scheduled.antt =====
-- Whatever a thread feed buffers, a pulse is to come for it (server/src/feeds/thread/mod.rs).
use shamichan.Prelude.{
  ℕ, ◌≡◌, refl, ◌∙◌, List, [], Option, none, some, Bool, true, false, ltb, ◌^◌, ◌-◌, arith,
  Bool-cases, inl, inr,
}
use shamichan.Prelude.Eq.{ℕ_eq}
use shamichan.Collections.HashMap
use shamichan.Collections.HashMap.{HashMap}
use shamichan.Server.MessageCacher.{MessageCacher}
use shamichan.Payloads.{Post, Thread}
use shamichan.Feeds.Changes.{Sent}
use shamichan.Feeds.Bundle.{Message, Bundle, get_cached_message}
use shamichan.Feeds.Writer.{Writer, flush}
use shamichan.Feeds.Thread.{
  Env, PageRecord, unfetched, mutable, immutable, Error, Pages, Bodies, ThreadFeed, Outcome,
  schedule_pulse, fetch_page,
}
use shamichan.Feeds.Thread.Handlers.{
  InsertPost, insert_post, raise_page_count, bump_unless, fetch_index, page_index, fetch_at,
  fetch_new, send_fetched, send_meta, send_or_defer, page_message,
}
use shamichan.Feeds.Thread.Edits.{close_post}
use shamichan.Feeds.Thread.Pulse.{then_diff, then_flush, diffed, Mutation, diff_open_bodies}
use shamichan.Feeds.Thread.Keeps.{insert_in-Keeps, close_in-Keeps}
use shamichan.Feeds.Thread.Requests.{
  Request, wakes, makes_immutable, pulses, sets_body, closes, inserts, fetches, fetches_feed_data,
  handle,
}

-- Where no pulse is to come, no fetch of a page is deferred, no open body is pending, and the
-- writer holds no message for the clients and no change for the index feed.
abbrev pub Buffers : Bool → HashMap ℕ (List ℕ) → HashMap ℕ Bodies → Writer → Type 0
Buffers true waiting bodies w = Unit {0}
Buffers false waiting bodies w = (waiting ≡ []) × (bodies ≡ []) × (w.enc ≡ none) × (w.global ≡ none)

abbrev pub IsScheduled : ThreadFeed → Type 0
IsScheduled f = Buffers f.pending_pulse f.deferred_page_fetches f.pending_open_bodies f.writer

-- A pulse meets no error.
abbrev pub Succeeds : Outcome → Request → Type 0
Succeeds o (pulses clients) = o.1 ≡ none
Succeeds o q = Unit {0}

pending-IsScheduled : (f : ThreadFeed) → f.pending_pulse ≡ true → IsScheduled f
pending-IsScheduled f e = rw e tt

schedule_pulse-pending : (f : ThreadFeed) → (schedule_pulse f).0.pending_pulse ≡ true
unfolding schedule_pulse
schedule_pulse-pending f = ground arith

module _ (env : Env) where
  raise_page_count-pending :
      (page : ℕ) (f : ThreadFeed) → (raise_page_count env page f).pending_pulse ≡ f.pending_pulse
  raise_page_count-pending page f = elim (Bool-cases (ltb f.thread_meta.val.page_count page)) [
    | inl e ↦ rw e refl
    | inr e ↦ rw e refl
  ]

  bump_unless-pending :
      (sage : Bool) (now : ℕ) (f : ThreadFeed)
      → (bump_unless env sage now f).pending_pulse ≡ f.pending_pulse
  bump_unless-pending true now f = refl
  bump_unless-pending false now f = refl

  insert_post-pending :
      (f : ThreadFeed) (req : InsertPost) (now : ℕ)
      → (insert_post env f req now).0.0.pending_pulse ≡ true
  unfolding insert_post
  insert_post-pending f req now =
      (insert_in-Keeps env _ _ req now _).pulse
      ∙ bump_unless-pending req.opts.sage now _
      ∙ raise_page_count-pending req.page _
      ∙ schedule_pulse-pending f

  send_fetched-IsScheduled :
      (f : ThreadFeed) (client id : ℕ) (r : Bundle Post × Option Message)
      → IsScheduled f
      → IsScheduled (send_fetched env f client id r).0.0
  send_fetched-IsScheduled f client id (p, none) h = h
  send_fetched-IsScheduled f client id (p, some msg) h = h

  fetch_new-IsScheduled :
      (f : ThreadFeed) (client id : ℕ) (o : Option PageRecord)
      → IsScheduled f
      → IsScheduled (fetch_new env f client id o).0.0
  fetch_new-IsScheduled f client id none h = h
  fetch_new-IsScheduled f client id (some unfetched) h = h
  fetch_new-IsScheduled f client id (some (immutable msg)) h = h
  fetch_new-IsScheduled f client id (some (mutable p)) h =
      send_fetched-IsScheduled f client id (page_message env p) h

  send_or_defer-IsScheduled :
      (f : ThreadFeed) (client id : ℕ) (o : Option Message)
      → IsScheduled f
      → IsScheduled (send_or_defer env f client id o).0.0
  send_or_defer-IsScheduled f client id (some msg) h = h
  send_or_defer-IsScheduled f client id none h = rw (schedule_pulse-pending f) tt

  fetch_at-IsScheduled :
      (f : ThreadFeed) (client id : ℕ) (o : Option PageRecord)
      → IsScheduled f
      → IsScheduled (fetch_at env f client id o).0.0
  fetch_at-IsScheduled f client id none h = h
  fetch_at-IsScheduled f client id (some (immutable msg)) h = h
  fetch_at-IsScheduled f client id (some unfetched) h =
      fetch_new-IsScheduled f client id (fetch_page env f.thread_meta.val.id id) h
  fetch_at-IsScheduled f client id (some (mutable p)) h =
      send_or_defer-IsScheduled f client id (get_cached_message p) h

  fetch_index-IsScheduled :
      (f : ThreadFeed) (client : ℕ) (o : Option ℕ)
      → IsScheduled f
      → IsScheduled (fetch_index env f client o).0.0
  fetch_index-IsScheduled f client none h = h
  fetch_index-IsScheduled f client (some id) h = elim (Bool-cases (ltb (2 ^ 31 - 1) id)) [
    | inl e ↦ rw e h
    | inr e ↦ rw e (fetch_at-IsScheduled f client id (HashMap.get f.pages id) h)
  ]

  send_meta-IsScheduled :
      (f : ThreadFeed) (client : ℕ) (o : Option (MessageCacher Thread Message × Message))
      → IsScheduled f
      → IsScheduled (send_meta env f client o).0.0
  send_meta-IsScheduled f client none h = h
  send_meta-IsScheduled f client (some (c, msg)) h = h

  diffed-IsScheduled :
      (f : ThreadFeed) (sent : List Sent) (clients : List ℕ) (r : Pages × Option (List Mutation))
      → f.deferred_page_fetches ≡ []
      → (then_flush env sent clients (diffed env f r)).1 ≡ none
      → IsScheduled (then_flush env sent clients (diffed env f r)).0.0
  unfolding flush
  diffed-IsScheduled f sent clients (pages, none) d e = absurd (ground arith)
  diffed-IsScheduled f sent clients (pages, some ms) d e = elim (Bool-cases f.pending_pulse) [
    | inl b ↦ rw b tt
    | inr b ↦ rw b (d, refl, refl, refl)
  ]

  then_diff-IsScheduled :
      (f : ThreadFeed) (clients : List ℕ) (r : (Pages × List Sent) × Option Error)
      → f.deferred_page_fetches ≡ []
      → (then_diff env f clients r).1 ≡ none
      → IsScheduled (then_diff env f clients r).0.0
  unfolding diff_open_bodies
  then_diff-IsScheduled f clients ((pages, sent), some err) d e = absurd (ground arith)
  then_diff-IsScheduled f clients ((pages, sent), none) d e =
      diffed-IsScheduled (record f { pages = pages }) sent clients _ d e

  -- Every handler of a thread feed, its errors included, keeps the following, and so does a pulse
  -- that meets no error: where no pulse is to come, no fetch of a page is deferred, no open body is
  -- pending, and the writer holds neither a message for the clients nor a change for the index feed.
  pub handle-IsScheduled :
      (f : ThreadFeed) (q : Request)
      → IsScheduled f
      → Succeeds (handle env f q) q
      → IsScheduled (handle env f q).0.0
  unfolding handle close_post
  handle-IsScheduled f wakes h s = rw (schedule_pulse-pending f) tt
  handle-IsScheduled f makes_immutable h s = h
  handle-IsScheduled f (pulses clients) h s =
      then_diff-IsScheduled (record f { pending_pulse = false; deferred_page_fetches = [] }) clients
        _ refl s
  handle-IsScheduled f (sets_body page id body) h s = rw (schedule_pulse-pending f) tt
  handle-IsScheduled f (closes page id body) h s =
      pending-IsScheduled (handle env f (closes page id body)).0.0
        ((close_in-Keeps env _ _ page id body _).pulse ∙ schedule_pulse-pending f)
  handle-IsScheduled f (inserts req now) h s =
      pending-IsScheduled (handle env f (inserts req now)).0.0 (insert_post-pending f req now)
  handle-IsScheduled f (fetches id client) h s =
      fetch_index-IsScheduled f client (page_index env f.thread_meta.val.page_count id) h
  handle-IsScheduled f (fetches_feed_data client) h s = send_meta-IsScheduled f client _ h
