-- ===== src/Client/State/Agent/Navigated.antt =====
-- Navigation keeps the index of the posts (client/src/state/agent.rs).
use shamichan.Prelude.{ℕ, zero, suc, Option, none, some, Bool, false, ◌==◌, Bool-cases, inl, inr}
use shamichan.Prelude.Eq.{ℕ_eq}
use shamichan.PostBody.Node.{ℤ, pos, negsuc}
use shamichan.Payloads.{Thread}
use shamichan.Collections.HashMap
use shamichan.Collections.HashMap.{HashMap}
use shamichan.Client.Location.{FeedId, Focus, Location, as_u64}
use shamichan.Client.State.Keys.{int_Eq, change_Eq}
use shamichan.Client.State.Requests.{Flags}
use shamichan.Client.State.Agent.{
  Agent, FeedSyncState, synced, set_location, set_location_no_sync, try_sync_feed, plus_count,
  as_u32, page_in, page_of, synced_or_set, navigate, refocus, same_location, send, fetch_page,
}
use shamichan.Client.State.Agent.Indexed.{
  IsIndexed, AllIndexed, Indexed-if, Indexed-set_location_no_sync, Indexed-try_sync_feed,
  Indexed-synced_or_set,
}

pub Indexed-page_in :
    (a : Agent) (new : Location) (flags : Flags) (feed : FeedId) (pages : HashMap ℕ Bool) (n : ℤ)
    → IsIndexed a.app
    → IsIndexed (page_in a new flags feed pages n).app
Indexed-page_in a new flags feed pages n h = go (HashMap.get pages (as_u32 n))
  where
    asked : Agent
    asked =
        send (record a { feed_sync_state = synced feed (HashMap.insert pages (as_u32 n) false) })
          (fetch_page n)

    go :
        (o : Option Bool)
        → IsIndexed
            (elim o as (λ x. Agent) [
              | none ↦ set_location_no_sync asked new flags
              | some r ↦ synced_or_set (try_sync_feed a new flags) new flags
            ]).app
    go none = Indexed-set_location_no_sync asked new flags h
    go (some r) =
        Indexed-synced_or_set (try_sync_feed a new flags) new flags
          (Indexed-try_sync_feed a new flags h)

pub AllIndexed-page_of :
    (a : Agent) (new : Location) (flags : Flags) (feed : FeedId) (pages : HashMap ℕ Bool) (id : ℕ)
    (n : ℤ)
    → IsIndexed a.app
    → AllIndexed (page_of a new flags feed pages id n)
AllIndexed-page_of a new flags feed pages id (pos n) h =
    Indexed-page_in a new flags feed pages (pos n) h
AllIndexed-page_of a new flags feed pages id (negsuc zero) h = go (HashMap.get a.app.threads id)
  where
    go :
        (o : Option Thread)
        → AllIndexed (elim o as (λ x. Option Agent) [
          | none ↦ none
          | some t ↦ some (page_in a new flags feed pages (plus_count (negsuc zero) t.page_count))
        ])
    go none = tt
    go (some t) = Indexed-page_in a new flags feed pages (plus_count (negsuc zero) t.page_count) h
AllIndexed-page_of a new flags feed pages id (negsuc (suc n)) h = h

synced_or_set_lem :
    (a : Agent) (new : Location) (flags : Flags)
    → IsIndexed a.app
    → IsIndexed (synced_or_set (try_sync_feed a new flags) new flags).app
synced_or_set_lem a new flags h =
    Indexed-synced_or_set (try_sync_feed a new flags) new flags
      (Indexed-try_sync_feed a new flags h)

pub AllIndexed-navigate :
    (a : Agent) (new : Location) (flags : Flags) (s : FeedSyncState) (feed : FeedId)
    → IsIndexed a.app
    → AllIndexed (navigate a new flags s feed)
AllIndexed-navigate a new flags (synced old pages) (FeedId.thread id n) h =
    elim (Bool-cases (as_u64 old == id)) [
      | inl e ↦ rw e (AllIndexed-page_of a new flags old pages id n h)
      | inr e ↦ rw e (synced_or_set_lem a new flags h)
    ]
AllIndexed-navigate a new flags s feed h = synced_or_set_lem a new flags h

pub Indexed-refocus : (a : Agent) (o : Option Focus) → IsIndexed a.app → IsIndexed (refocus a o).app
Indexed-refocus a none h = h
Indexed-refocus a (some f) h = h

pub AllIndexed-set_location :
    (a : Agent) (new : Location) (flags : Flags)
    → IsIndexed a.app
    → AllIndexed (set_location a new flags)
unfolding set_location
AllIndexed-set_location a new flags h = elim (Bool-cases (same_location a.app.location new)) [
  | inl e ↦
      rw e (
        Indexed-if flags.scroll_to_focused (refocus a new.focus) a (Indexed-refocus a new.focus h)
          h)
  | inr e ↦ rw e (AllIndexed-navigate a new flags a.feed_sync_state new.feed h)
]
