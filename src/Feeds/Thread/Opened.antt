-- ===== src/Feeds/Thread/Opened.antt =====
-- The first post of a page (server/src/feeds/thread/mod.rs).
use shamichan.Prelude.{
  ℕ, ◌≡◌, ◌≤◌, refl, ap, ◌∙◌, [], ◌∷◌, Option, none, Bool, true, false, ltb, arith, Bool-cases, inl,
  inr,
}
use shamichan.Prelude.Eq.{ℕ_eq}
use shamichan.Collections.HashMap
use shamichan.PostBody.Node.{pos}
use shamichan.Server.MessageCacher
use shamichan.Feeds.Changes.{disconnect}
use shamichan.Feeds.Thread.{Env, Pages, PageRecord, ThreadFeed, schedule_pulse}
use shamichan.Feeds.Thread.Handlers.{
  InsertPost, insert_post, insert_in, raise_page_count, bump_unless, fetch, fetch_index, page_index,
  done,
}
use shamichan.Feeds.Thread.Keeps.{insert_in-Keeps}

schedule_pulse_lem :
    (f : ThreadFeed)
    → ((schedule_pulse f).0.pages ≡ f.pages)
      × ((schedule_pulse f).0.writer ≡ f.writer)
      × ((schedule_pulse f).0.thread_meta.val.page_count ≡ f.thread_meta.val.page_count)
unfolding schedule_pulse
schedule_pulse_lem f = elim (Bool-cases f.pending_pulse) [
  | inl e ↦ rw e (refl, refl, refl)
  | inr e ↦ rw e (refl, refl, refl)
]

module _ (env : Env) where
  raise_page_count_lem :
      (page : ℕ) (f : ThreadFeed)
      → f.thread_meta.val.page_count ≤ page
      → ((raise_page_count env page f).pages ≡ f.pages)
        × ((raise_page_count env page f).writer ≡ f.writer)
        × ((raise_page_count env page f).thread_meta.val.page_count ≡ page)
  unfolding MessageCacher.deref_mut
  raise_page_count_lem page f h = elim (Bool-cases (ltb f.thread_meta.val.page_count page)) [
    | inl e ↦ rw e (refl, refl, refl)
    | inr e ↦ rw e (refl, refl, ground arith)
  ]

  bump_unless_lem :
      (sage : Bool) (now : ℕ) (f : ThreadFeed)
      → ((bump_unless env sage now f).pages ≡ f.pages)
        × ((bump_unless env sage now f).writer ≡ f.writer)
        × ((bump_unless env sage now f).thread_meta.val.page_count ≡ f.thread_meta.val.page_count)
  unfolding MessageCacher.deref_mut
  bump_unless_lem true now f = (refl, refl, refl)
  bump_unless_lem false now f = (refl, refl, refl)

  insert_in-writer :
      (f : ThreadFeed) (sent : _) (req : InsertPost) (now : ℕ) (o : Option PageRecord)
      → o ≡ none
      → (insert_in env f sent req now o).0.0.writer ≡ f.writer
  insert_in-writer f sent req now o e = rw e refl

  -- Where a post is the first of its page, at or past the page count, and the page is not in the map,
  -- inserting the post writes no message to the clients or to the index feed, and who then fetches the
  -- page is disconnected.
  pub insert_post_first :
      (f : ThreadFeed) (req : InsertPost) (now client : ℕ)
      → HashMap.get f.pages req.page ≡ none
      → f.thread_meta.val.page_count ≤ req.page
      → ((insert_post env f req now).0.0.writer ≡ f.writer)
        × (fetch env (insert_post env f req now).0.0 (pos req.page) client
            ≡ done (insert_post env f req now).0.0 (disconnect client ∷ []))
  unfolding insert_post fetch
  insert_post_first f req now client e h =
      let f' = (schedule_pulse f).0 in
      let (sp, sw, sc) = schedule_pulse_lem f in
      let r = raise_page_count env req.page f' in
      let (rp, rwr, rc) = raise_page_count_lem req.page f' (ground (arith, sc)) in
      let g = bump_unless env req.opts.sage now r in
      let (bp, bw, bc) = bump_unless_lem req.opts.sage now r in
      let keeps =
        insert_in-Keeps env g (schedule_pulse f).1 req now (HashMap.get g.pages req.page) in
      let unopened : page_index env req.page (pos req.page) ≡ none = ground arith in
      let count : (insert_post env f req now).0.0.thread_meta.val.page_count ≡ req.page =
        keeps.count ∙ bc ∙ rc in
      (
        insert_in-writer g (schedule_pulse f).1 req now _
              (ap (λ (m : Pages). HashMap.get m req.page) (bp ∙ rp ∙ sp) ∙ e)
            ∙ bw
            ∙ rwr
            ∙ sw,
        ap (fetch_index env (insert_post env f req now).0.0 client)
            (ap (λ n. page_index env n (pos req.page)) count ∙ unopened),
      )
