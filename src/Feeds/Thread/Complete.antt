-- ===== src/Feeds/Thread/Complete.antt =====
-- Every page up to the page count of a thread is in the map of pages, so that a fetch does not
-- panic (server/src/feeds/thread/mod.rs).
pub mod Run
use shamichan.Prelude.{
  subst, ℕ, suc, zero, ◌≡◌, ◌≢◌, ◌≤◌, refl, ap, sym, ◌∙◌, List, [], ◌∷◌, Option, none, some, Bool,
  true, false, ltb, ◌==◌, ◌+◌, ◌^◌, ◌-◌, arith, Bool-cases, inl, inr,
}
use shamichan.Prelude.Eq.{ℕ_eq}
use shamichan.Collections.HashMap
use shamichan.Collections.HashMap.{HashMap}
use shamichan.PostBody.Node.{ℤ, pos, negsuc}
use shamichan.Server.MessageCacher.{MessageCacher}
use shamichan.Server.MessageCacher
use shamichan.Codec.MessageType.{MessageType}
use shamichan.Payloads.{Post, Thread}
use shamichan.Feeds.Changes.{Sent}
use shamichan.Feeds.Bundle.{Message, Bundle, get_cached_message}
use shamichan.Feeds.Thread.{
  Env, PageRecord, unfetched, mutable, immutable, Error, Pages, ThreadFeed, schedule_pulse,
  fetch_page, new, unfetched_pages,
}
use shamichan.Feeds.Thread.Handlers.{
  InsertPost, insert_post, insert_in, raise_page_count, bump_unless, fetch, fetch_feed_data,
  fetch_index, page_index, fetch_at, fetch_new, send_fetched, send_meta, send_or_defer,
  page_message,
}
use shamichan.Feeds.Thread.Edits.{close_post, try_make_pages_immutable}
use shamichan.Feeds.Thread.Pulse.{pulse, then_diff, then_flush, diffed, Mutation, diff_open_bodies}
use shamichan.Feeds.Thread.Keeps.{
  is_some, has, Includes, Keeps, has-insert, insert-Includes, insert_in-Keeps, has-insert_in,
  close_in-Keeps, try_pages-Includes, process_all-Includes, send_pages-Includes,
}
use shamichan.Feeds.Thread.Requests.{
  Request, wakes, makes_immutable, pulses, sets_body, closes, inserts, fetches, fetches_feed_data,
  handle,
}

abbrev pub IsComplete : ThreadFeed → Type 0
IsComplete f = (k : ℕ) → k ≤ f.thread_meta.val.page_count → has f.pages k ≡ true

-- A post goes to a page that is there, or to the next one.
abbrev pub IsNext : ThreadFeed → Request → Type 0
IsNext f (inserts req now) = req.page ≤ f.thread_meta.val.page_count + 1
IsNext f q = Unit {0}

abbrev pub run : Env → ThreadFeed → List Request → ThreadFeed
run env f [] = f
run env f (q ∷ qs) = run env (handle env f q).0.0 qs

abbrev pub AllNext : Env → ThreadFeed → List Request → Type 0
AllNext env f [] = Unit {0}
AllNext env f (q ∷ qs) = IsNext f q × AllNext env (handle env f q).0.0 qs

pub keep-IsComplete : (f g : ThreadFeed) → Keeps f g → IsComplete f → IsComplete g
keep-IsComplete f g h c k le = h.pages k (c k (ground (arith, h.count)))

schedule_pulse-Keeps :
    (f : ThreadFeed)
    → ((schedule_pulse f).0.pages ≡ f.pages) × ((schedule_pulse f).0.thread_meta ≡ f.thread_meta)
unfolding schedule_pulse
schedule_pulse-Keeps f = elim (Bool-cases f.pending_pulse) [
  | inl e ↦ rw e (refl, refl)
  | inr e ↦ rw e (refl, refl)
]

has-unfetched_pages : (n k : ℕ) → k ≤ n → has (unfetched_pages n) k ≡ true
unfolding unfetched_pages
has-unfetched_pages zero k h = let e : k ≡ 0 = ground arith in rw e (has-insert [] 0 unfetched)
has-unfetched_pages (suc n) k h = elim (Bool-cases (ltb n k)) [
  | inl e ↦
      let i : k ≡ suc n = ground arith in rw i (has-insert (unfetched_pages n) (suc n) unfetched)
  | inr e ↦
      insert-Includes (unfetched_pages n) (suc n) unfetched k
        (has-unfetched_pages n k (ground arith))
]

pub new-IsComplete :
    (thread : Thread) (last_5_posts : List ℕ) (first : Option (List Post)) (index_feed : ℕ)
    → IsComplete (new thread last_5_posts first index_feed)
unfolding new
new-IsComplete thread ids none index_feed k h = has-unfetched_pages thread.page_count k h
new-IsComplete thread ids (some posts) index_feed k h =
    insert-Includes (unfetched_pages thread.page_count) 0 _ k
      (has-unfetched_pages thread.page_count k h)

-- The pages and the page count alone matter.
pub include-IsComplete :
    (f g : ThreadFeed)
    → Includes g.pages f.pages
    → g.thread_meta ≡ f.thread_meta
    → IsComplete f
    → IsComplete g
include-IsComplete f g i e c k le =
    i k (c k (subst (λ (t : MessageCacher Thread Message). k ≤ t.val.page_count) e le))

pub schedule-IsComplete : (f : ThreadFeed) → IsComplete f → IsComplete (schedule_pulse f).0
schedule-IsComplete f =
    let (a, b) = schedule_pulse-Keeps f in
    include-IsComplete f (schedule_pulse f).0 (λ k h. ap (λ m. has m k) a ∙ h) b

-- The page count after an insertion on the next page at most.
UpTo : ℕ → ThreadFeed → ThreadFeed → Type 0
UpTo page f g =
    (g.pages ≡ f.pages)
    × ((k : ℕ) → k ≤ g.thread_meta.val.page_count → k ≢ page → k ≤ f.thread_meta.val.page_count)

module _ (env : Env) where
  raise_page_count-UpTo :
      (page : ℕ) (f : ThreadFeed)
      → page ≤ f.thread_meta.val.page_count + 1
      → UpTo page f (raise_page_count env page f)
  unfolding MessageCacher.deref_mut UpTo
  raise_page_count-UpTo page f h = elim (Bool-cases (ltb f.thread_meta.val.page_count page)) [
    | inl e ↦ rw e (refl, λ k le ne. ground arith)
    | inr e ↦ rw e (refl, λ k le ne. le)
  ]

  bump_unless-UpTo :
      (page : ℕ) (sage : Bool) (now : ℕ) (f g : ThreadFeed)
      → UpTo page f g
      → UpTo page f (bump_unless env sage now g)
  unfolding MessageCacher.deref_mut UpTo
  bump_unless-UpTo page true now f g h = h
  bump_unless-UpTo page false now f g h = h

  insert_in-IsComplete :
      (f g : ThreadFeed) (sent : List Sent) (req : InsertPost) (now : ℕ)
      → UpTo req.page f g
      → IsComplete f
      → IsComplete (insert_in env g sent req now (HashMap.get g.pages req.page)).0.0
  unfolding UpTo
  insert_in-IsComplete f g sent req now (same, up) c k le =
      let keeps = insert_in-Keeps env g sent req now (HashMap.get g.pages req.page) in
      elim (Bool-cases (k == req.page)) [
        | inl e ↦ let i : k ≡ req.page = ground arith in rw i (has-insert_in env g sent req now)
        | inr e ↦
            keeps.pages k (
              ap (λ m. has m k) same ∙ c k (up k (ground (arith, keeps.count)) (λ i. ground arith)))
      ]

  pub insert_post-IsComplete :
      (f : ThreadFeed) (req : InsertPost) (now : ℕ)
      → IsComplete f
      → req.page ≤ f.thread_meta.val.page_count + 1
      → IsComplete (insert_post env f req now).0.0
  unfolding insert_post
  insert_post-IsComplete f req now c h =
      let f' = (schedule_pulse f).0 in
      let same = (schedule_pulse-Keeps f).1 in
      let h' : req.page ≤ f'.thread_meta.val.page_count + 1 =
        subst (λ (t : MessageCacher Thread Message). req.page ≤ t.val.page_count + 1) (sym same)
          h in
      insert_in-IsComplete f' _ (schedule_pulse f).1 req now
        (bump_unless-UpTo req.page req.opts.sage now f' _ (raise_page_count-UpTo req.page f' h'))
        (schedule-IsComplete f c)
