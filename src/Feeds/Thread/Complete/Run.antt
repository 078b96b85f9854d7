-- ===== src/Feeds/Thread/Complete/Run.antt =====
-- The pages stay complete through all messages of a thread feed, and a fetch does not panic
-- (server/src/feeds/thread/mod.rs).
use shamichan.Prelude.{
  ℕ, ◌≡◌, ◌≤◌, refl, List, [], ◌∷◌, Option, none, some, Bool, true, false, ltb, ◌^◌, ◌-◌, arith,
  Bool-cases, inl, inr,
}
use shamichan.Prelude.Eq.{ℕ_eq}
use shamichan.Collections.HashMap
use shamichan.Collections.HashMap.{HashMap}
use shamichan.PostBody.Node.{ℤ, pos, negsuc}
use shamichan.Server.MessageCacher.{MessageCacher}
use shamichan.Server.MessageCacher
use shamichan.Codec.MessageType.{MessageType}
use shamichan.Payloads.{Post, Thread}
use shamichan.Feeds.Changes.{Sent}
use shamichan.Feeds.Bundle.{Message, Bundle, get_cached_message}
use shamichan.Feeds.Thread.{
  Env, PageRecord, unfetched, mutable, immutable, Error, Pages, ThreadFeed, schedule_pulse,
  fetch_page, new,
}
use shamichan.Feeds.Thread.Handlers.{
  fetch, fetch_feed_data, fetch_index, page_index, fetch_at, fetch_new, send_fetched, send_meta,
  send_or_defer, page_message,
}
use shamichan.Feeds.Thread.Edits.{close_post, try_make_pages_immutable}
use shamichan.Feeds.Thread.Pulse.{pulse, then_diff, then_flush, diffed, Mutation, diff_open_bodies}
use shamichan.Feeds.Thread.Keeps.{
  is_some, Includes, insert-Includes, close_in-Keeps, try_pages-Includes, process_all-Includes,
  send_pages-Includes,
}
use shamichan.Feeds.Thread.Requests.{
  Request, wakes, makes_immutable, pulses, sets_body, closes, inserts, fetches, fetches_feed_data,
  handle,
}
use shamichan.Feeds.Thread.Complete.{
  IsComplete, IsNext, run, AllNext, keep-IsComplete, new-IsComplete, include-IsComplete,
  schedule-IsComplete, insert_post-IsComplete,
}

-- The error that is a panic in the code.
abbrev pub panics : Option Error → Bool
panics (some Error.page_not_inserted) = true
panics e = false

module _ (env : Env) where
  send_fetched-IsComplete :
      (f : ThreadFeed) (client id : ℕ) (r : Bundle Post × Option Message)
      → IsComplete f
      → IsComplete (send_fetched env f client id r).0.0
  send_fetched-IsComplete f client id (p, none) c = c
  send_fetched-IsComplete f client id (p, some msg) c =
      include-IsComplete f (send_fetched env f client id (p, some msg)).0.0
        (insert-Includes f.pages id (mutable p)) refl c

  fetch_new-IsComplete :
      (f : ThreadFeed) (client id : ℕ) (o : Option PageRecord)
      → IsComplete f
      → IsComplete (fetch_new env f client id o).0.0
  fetch_new-IsComplete f client id none c = c
  fetch_new-IsComplete f client id (some unfetched) c = c
  fetch_new-IsComplete f client id (some (immutable msg)) c =
      include-IsComplete f (fetch_new env f client id (some (immutable msg))).0.0
        (insert-Includes f.pages id (immutable msg)) refl c
  fetch_new-IsComplete f client id (some (mutable p)) c =
      send_fetched-IsComplete f client id (page_message env p) c

  send_or_defer-IsComplete :
      (f : ThreadFeed) (client id : ℕ) (o : Option Message)
      → IsComplete f
      → IsComplete (send_or_defer env f client id o).0.0
  send_or_defer-IsComplete f client id (some msg) c = c
  send_or_defer-IsComplete f client id none c = schedule-IsComplete f c

  fetch_at-IsComplete :
      (f : ThreadFeed) (client id : ℕ) (o : Option PageRecord)
      → IsComplete f
      → IsComplete (fetch_at env f client id o).0.0
  fetch_at-IsComplete f client id none c = c
  fetch_at-IsComplete f client id (some (immutable msg)) c = c
  fetch_at-IsComplete f client id (some unfetched) c =
      fetch_new-IsComplete f client id (fetch_page env f.thread_meta.val.id id) c
  fetch_at-IsComplete f client id (some (mutable p)) c =
      send_or_defer-IsComplete f client id (get_cached_message p) c

  fetch_index-IsComplete :
      (f : ThreadFeed) (client : ℕ) (o : Option ℕ)
      → IsComplete f
      → IsComplete (fetch_index env f client o).0.0
  fetch_index-IsComplete f client none c = c
  fetch_index-IsComplete f client (some id) c = elim (Bool-cases (ltb (2 ^ 31 - 1) id)) [
    | inl e ↦ rw e c
    | inr e ↦ rw e (fetch_at-IsComplete f client id (HashMap.get f.pages id) c)
  ]

  encoded-IsComplete :
      (f : ThreadFeed) (client : ℕ) (o : Option Message)
      → IsComplete f
      → IsComplete
          (send_meta env f client
            (MessageCacher.encoded env.encode_thread f.thread_meta MessageType.thread_meta o)).0.0
  encoded-IsComplete f client none c = c
  encoded-IsComplete f client (some m) c = c

  message_of-IsComplete :
      (f : ThreadFeed) (client : ℕ) (o : Option (MessageType × Message))
      → IsComplete f
      → IsComplete
          (send_meta env f client (
            MessageCacher.message_of env.encode_thread f.thread_meta MessageType.thread_meta o)).0.0
  message_of-IsComplete f client none c = encoded-IsComplete f client _ c
  message_of-IsComplete f client (some (t, m)) c =
      elim (Bool-cases (MessageCacher.type_eq MessageType.thread_meta t)) [
        | inl e ↦ rw e c
        | inr e ↦ rw e (encoded-IsComplete f client _ c)
      ]

  fetch_feed_data-IsComplete :
      (f : ThreadFeed) (client : ℕ) → IsComplete f → IsComplete (fetch_feed_data env f client).0.0
  unfolding fetch_feed_data MessageCacher.get_message
  fetch_feed_data-IsComplete f client c = message_of-IsComplete f client f.thread_meta.cached c

  diffed-IsComplete :
      (f : ThreadFeed) (sent : List Sent) (clients : List ℕ) (r : Pages × Option (List Mutation))
      → Includes r.0 f.pages
      → IsComplete f
      → IsComplete (then_flush env sent clients (diffed env f r)).0.0
  diffed-IsComplete f sent clients (pages, none) i c k le = i k (c k le)
  diffed-IsComplete f sent clients (pages, some ms) i c k le = i k (c k le)

  then_diff-IsComplete :
      (f : ThreadFeed) (clients : List ℕ) (r : (Pages × List Sent) × Option Error)
      → Includes r.0.0 f.pages
      → IsComplete f
      → IsComplete (then_diff env f clients r).0.0
  unfolding diff_open_bodies
  then_diff-IsComplete f clients ((pages, sent), some err) i c = λ k le. i k (c k le)
  then_diff-IsComplete f clients ((pages, sent), none) i c =
      diffed-IsComplete (record f { pages = pages }) sent clients _
        (process_all-Includes env f.thread_meta.val.id pages f.pending_open_bodies [])
        (λ k le. i k (c k le))

  handle-IsComplete :
      (f : ThreadFeed) (q : Request) → IsComplete f → IsNext f q → IsComplete (handle env f q).0.0
  unfolding handle close_post pulse try_make_pages_immutable
  handle-IsComplete f wakes c h = schedule-IsComplete f c
  handle-IsComplete f makes_immutable c h =
      λ k le. try_pages-Includes env f.thread_meta.val.id f.pages k (c k le)
  handle-IsComplete f (pulses clients) c h =
      then_diff-IsComplete (record f { pending_pulse = false; deferred_page_fetches = [] }) clients
        _ (send_pages-Includes env f.pages f.deferred_page_fetches []) c
  handle-IsComplete f (sets_body page id body) c h = schedule-IsComplete f c
  handle-IsComplete f (closes page id body) c h =
      keep-IsComplete (schedule_pulse f).0 (handle env f (closes page id body)).0.0
        (close_in-Keeps env _ _ page id body _) (schedule-IsComplete f c)
  handle-IsComplete f (inserts req now) c h = insert_post-IsComplete env f req now c h
  handle-IsComplete f (fetches id client) c h =
      fetch_index-IsComplete f client (page_index env f.thread_meta.val.page_count id) c
  handle-IsComplete f (fetches_feed_data client) c h = fetch_feed_data-IsComplete f client c

  run-IsComplete :
      (f : ThreadFeed) (qs : List Request)
      → IsComplete f
      → AllNext env f qs
      → IsComplete (run env f qs)
  run-IsComplete f [] c h = c
  run-IsComplete f (q ∷ qs) c (h, hs) =
      run-IsComplete (handle env f q).0.0 qs (handle-IsComplete f q c h) hs

  fetch_new-panics :
      (f : ThreadFeed) (client id : ℕ) (o : Option PageRecord)
      → panics (fetch_new env f client id o).1 ≡ false
  fetch_new-panics f client id none = refl
  fetch_new-panics f client id (some unfetched) = refl
  fetch_new-panics f client id (some (immutable msg)) = refl
  fetch_new-panics f client id (some (mutable p)) = sent (page_message env p)
    where
      sent : (r : Bundle Post × Option Message) → panics (send_fetched env f client id r).1 ≡ false
      sent (p, none) = refl
      sent (p, some msg) = refl

  fetch_at-panics :
      (f : ThreadFeed) (client id : ℕ) (o : Option PageRecord)
      → is_some o ≡ true
      → panics (fetch_at env f client id o).1 ≡ false
  fetch_at-panics f client id none h = absurd (ground arith)
  fetch_at-panics f client id (some (immutable msg)) h = refl
  fetch_at-panics f client id (some unfetched) h = fetch_new-panics f client id _
  fetch_at-panics f client id (some (mutable p)) h = sent (get_cached_message p)
    where
      sent : (o : Option Message) → panics (send_or_defer env f client id o).1 ≡ false
      sent none = refl
      sent (some msg) = refl

  fetch_index-panics :
      (f : ThreadFeed) (client : ℕ) (o : Option ℕ)
      → IsComplete f
      → ((k : ℕ) → o ≡ some k → k ≤ f.thread_meta.val.page_count)
      → panics (fetch_index env f client o).1 ≡ false
  fetch_index-panics f client none c h = refl
  fetch_index-panics f client (some id) c h = elim (Bool-cases (ltb (2 ^ 31 - 1) id)) [
    | inl e ↦ rw e refl
    | inr e ↦ rw e (fetch_at-panics f client id (HashMap.get f.pages id) (c id (h id refl)))
  ]

  page_index-le : (n k : ℕ) (id : ℤ) → page_index env n id ≡ some k → k ≤ n
  page_index-le n k (pos i) e = ground arith
  page_index-le n k (negsuc i) e = ground arith

  -- A fetch of a page never panics, whatever messages the feed handled since it was made, where
  -- each post was inserted on a page up to the page count, or on the one after it.
  pub fetch-panics :
      (thread : Thread) (last_5_posts : List ℕ) (first : Option (List Post)) (index_feed : ℕ)
      (qs : List Request) (id : ℤ) (client : ℕ)
      → AllNext env (new thread last_5_posts first index_feed) qs
      → panics (fetch env (run env (new thread last_5_posts first index_feed) qs) id client).1
        ≡ false
  unfolding fetch
  fetch-panics thread ids first index_feed qs id client h =
      let f = new thread ids first index_feed in
      fetch_index-panics (run env f qs) client _
        (run-IsComplete f qs (new-IsComplete thread ids first index_feed) h)
        (λ k e. page_index-le _ k id e)
