-- ===== src/Client/State/Agent/Indexed.antt =====
-- The posts of the app stand in the index by thread and page (client/src/state/agent.rs).
use shamichan.Prelude.{
  ℕ, ◌≡◌, refl, ap, ap₂, sym, ◌∙◌, List, [], ◌∷◌, ◌++◌, Option, none, some, Bool, true, false,
  if◌then◌else◌, ◌==◌, ◌&&◌, arith, Bool-cases, inl, inr, eqb→eq,
}
use shamichan.Prelude.Eq.{ℕ_eq}
use shamichan.PostBody.Node.{ℤ}
use shamichan.Payloads.{Post, Thread}
use shamichan.Collections.HashMap
use shamichan.Collections.HashMap.{HashMap, get-insert}
use shamichan.Collections.SetMap.{SetMap, relates, relates-insert}
use shamichan.Collections.DoubleSetMap
use shamichan.Client.Location.{FeedId, Focus, Location, as_u64, path}
use shamichan.Client.State as App
use shamichan.Client.State.{register_post, pair_Eq, pair_eq}
use shamichan.Client.State.Keys.{int_Eq, change_Eq}
use shamichan.Client.State.Requests.{Change, Flags}
use shamichan.Client.State.Agent.Requested.{put_post}
use shamichan.Client.State.Agent.{
  Agent, FeedSyncState, not_requested, receiving, synced, trigger, set_app, set_location_no_sync,
  try_sync_feed, sync_in, add_page, fetch_page, synced_or_set, scroll_later,
}

-- A post stands under its ID, and under its thread and page in the index.
pub record Indexed (posts : HashMap ℕ Post) (index : SetMap (ℕ × ℕ) ℕ) : Type 0 where
  pub has_id : (id : ℕ) (p : Post) → HashMap.get posts id ≡ some p → p.id ≡ id
  pub has_place :
      (id : ℕ) (p : Post)
      → HashMap.get posts id ≡ some p
      → relates index (p.thread, p.page) id ≡ true

abbrev pub IsIndexed : App.State → Type 0
IsIndexed s = Indexed s.posts s.posts_by_thread_page.by_key

pub Indexed-if :
    (b : Bool) (a c : Agent)
    → IsIndexed a.app
    → IsIndexed c.app
    → IsIndexed (if b then a else c).app
Indexed-if true a c h k = h
Indexed-if false a c h k = k

same_some : {A : Type 0} (a b : A) → ◌≡◌ {A = Option A} (some a) (some b) → a ≡ b
same_some a b e = ap (λ o. elim o [ some x ↦ x | none ↦ a ]) e

-- A post that is put under its ID, with an index that has its place and all that was there.
Indexed-insert :
    (posts : HashMap ℕ Post) (index index' : SetMap (ℕ × ℕ) ℕ) (id : ℕ) (p : Post)
    → Indexed posts index
    → ((k : ℕ × ℕ) (v : ℕ) → relates index k v ≡ true → relates index' k v ≡ true)
    → p.id ≡ id
    → relates index' (p.thread, p.page) id ≡ true
    → Indexed (HashMap.insert posts id p) index'
Indexed-insert posts index index' id p h more same place =
    let other : (j : ℕ) (q : Post)
        → (id == j) ≡ false
        → HashMap.get (HashMap.insert posts id p) j ≡ some q
        → HashMap.get posts j ≡ some q =
      λ j q f e. sym (get-insert posts id j p ∙ rw f refl) ∙ e in
    let this : (j : ℕ) (q : Post)
        → (id == j) ≡ true
        → HashMap.get (HashMap.insert posts id p) j ≡ some q
        → p ≡ q =
      λ j q f e. same_some p q (sym (get-insert posts id j p ∙ rw f refl) ∙ e) in
    record {
      has_id = λ j q e. elim (Bool-cases (id == j)) [
        | inl f ↦ ap (λ r. r.id) (sym (this j q f e)) ∙ same ∙ eqb→eq id j f
        | inr f ↦ h.has_id j q (other j q f e)
      ];
      has_place = λ j q e. elim (Bool-cases (id == j)) [
        | inl f ↦
            ap (λ r. relates index' (r.thread, r.page) j) (sym (this j q f e))
            ∙ ap (λ i. relates index' (p.thread, p.page) i) (sym (eqb→eq id j f))
            ∙ place
        | inr f ↦ more (q.thread, q.page) j (h.has_place j q (other j q f e))
      ];
    }

or_true : (b c : Bool) → c ≡ true → (if b then true else c) ≡ true
or_true true c h = refl
or_true false c h = h

if_true : (b c : Bool) → b ≡ true → (if b then true else c) ≡ true
if_true true c h = refl
if_true false c h = absurd (ground arith)

pub Indexed-register_post : (s : App.State) (p : Post) → IsIndexed s → IsIndexed (register_post s p)
unfolding register_post DoubleSetMap.insert
Indexed-register_post s p h =
    let index = s.posts_by_thread_page.by_key in
    Indexed-insert s.posts index _ p.id p h
      (λ k v e. relates-insert index (p.thread, p.page) p.id k v ∙ or_true _ _ e) refl
      (relates-insert index (p.thread, p.page) p.id (p.thread, p.page) p.id
        ∙ if_true (pair_eq (p.thread, p.page) (p.thread, p.page) && p.id == p.id)
            (relates index (p.thread, p.page) p.id) (ground arith))

-- A post that is changed but keeps its ID and its place.
pub Indexed-put_post :
    (a : Agent) (id : ℕ) (p q : Post)
    → IsIndexed a.app
    → HashMap.get a.app.posts id ≡ some p
    → q.id ≡ p.id
    → q.thread ≡ p.thread
    → q.page ≡ p.page
    → IsIndexed (put_post a id q).app
Indexed-put_post a id p q h e i t n =
    let index = a.app.posts_by_thread_page.by_key in
    Indexed-insert a.app.posts index index id q h (λ k v r. r) (i ∙ h.has_id id p e)
      (ap₂ (λ x y. relates index (x, y) id) t n ∙ h.has_place id p e)

Indexed-scroll_later :
    (a : Agent) (o : Option Focus) → IsIndexed a.app → IsIndexed (scroll_later a o).app
Indexed-scroll_later a none h = h
Indexed-scroll_later a (some f) h = h

pub Indexed-set_location_no_sync :
    (a : Agent) (new : Location) (flags : Flags)
    → IsIndexed a.app
    → IsIndexed (set_location_no_sync a new flags).app
unfolding set_location_no_sync trigger
Indexed-set_location_no_sync a new flags h =
    let b = set_app a (record a.app { location = new }) in
    let told = if flags.no_trigger then b else trigger b Change.location in
    let located = if flags.set_state then told else a in
    let later = if flags.scroll_to_focused then scroll_later located new.focus else located in
    let k =
      Indexed-if flags.set_state told a
        (Indexed-if flags.no_trigger b (trigger b Change.location) h h) h in
    let l =
      Indexed-if flags.scroll_to_focused (scroll_later located new.focus) located
        (Indexed-scroll_later located new.focus k) k in
    Indexed-if flags.push_state (record later { history = later.history ++ path new ∷ [] }) later l
      l

Indexed-add_page :
    (a : Agent) (new : Location) (t : Option Thread) (pages : HashMap ℤ (Option (List Post)))
    (flags : Flags) (feed : FeedId)
    → IsIndexed a.app
    → IsIndexed (add_page a new t pages flags feed).app
Indexed-add_page a new t pages flags FeedId.index h = h
Indexed-add_page a new t pages flags FeedId.catalog h = h
Indexed-add_page a new t pages flags (FeedId.thread id n) h =
    elim (HashMap.get pages n)
      as (λ o.
        IsIndexed
          (elim o as (λ x. Agent) [
            | none ↦ record a {
              feed_sync_state = receiving new t (HashMap.insert pages n none) flags;
              sent = a.sent ++ fetch_page n ∷ [];
            }
            | some p ↦ record a { feed_sync_state = receiving new t pages flags }
          ]).app) [ none ↦ h | some p ↦ h ]

Indexed-sync_in :
    (a : Agent) (new : Location) (flags : Flags) (s : FeedSyncState)
    → IsIndexed a.app
    → IsIndexed (sync_in a new flags s).0.app
unfolding as_u64
Indexed-sync_in a new flags (receiving loc t pages old) h =
    elim (Bool-cases (as_u64 loc.feed == as_u64 new.feed)) [
      | inl e ↦ rw e (Indexed-add_page a new t pages old new.feed h)
      | inr e ↦ rw e h
    ]
Indexed-sync_in a new flags (synced feed pages) h =
    elim (Bool-cases (as_u64 feed == as_u64 new.feed)) [ inl e ↦ rw e h | inr e ↦ rw e h ]
Indexed-sync_in a new flags not_requested h = h

pub Indexed-try_sync_feed :
    (a : Agent) (new : Location) (flags : Flags)
    → IsIndexed a.app
    → IsIndexed (try_sync_feed a new flags).0.app
unfolding try_sync_feed
Indexed-try_sync_feed a new flags h = Indexed-sync_in a new flags a.feed_sync_state h

pub Indexed-synced_or_set :
    (r : Agent × Bool) (new : Location) (flags : Flags)
    → IsIndexed r.0.app
    → IsIndexed (synced_or_set r new flags).app
Indexed-synced_or_set (a, true) new flags h = h
Indexed-synced_or_set (a, false) new flags h = Indexed-set_location_no_sync a new flags h

-- The agent is indexed, where there was no panic.
abbrev pub AllIndexed : Option Agent → Type 0
AllIndexed none = Unit
AllIndexed (some a) = IsIndexed a.app
