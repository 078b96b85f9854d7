-- ===== src/Feeds/Index/Scheduled.antt =====
-- Whatever the index feed buffers, a pulse is to come for it (server/src/feeds/index/mod.rs).
use shamichan.Prelude.{
  ℕ, ◌≡◌, refl, ap, ap₂, sym, fun_ext, ◌∙◌, List, [], ◌∷◌, Option, none, some, Bool, true, false,
  arith, Bool-cases, inl, inr,
}
use shamichan.Codec.MessageType.{MessageType}
use shamichan.Payloads.{ThreadWithPosts, PostCreationOpts}
use shamichan.Feeds.Changes.{ChangeSet, Sent}
use shamichan.Feeds.Bundle.{Message, get_cached_message, Bundle, values}
use shamichan.Feeds.Bundle.Fresh.{IsFresh, encode_all}
use shamichan.Codec.Encoder.{Encoder}
use shamichan.Feeds.Writer.{Payload}
use shamichan.Feeds.Index.{
  IndexFeed, schedule_pulse, wake_up, change_set, fetch, fetch_feed_data, insert_thread, used_tags,
  tags_of, tags_sent,
}
use shamichan.Feeds.Index.Pulse.{pulse, deferred, send_deferred}
use shamichan.Feeds.Index.Applied.{
  unknown, known_in, is_there, thread_of, is_there-if_there, Applies, pulse-Applies,
}

-- A message to the index feed, but for `Pulse`.
pub data Request : Type 0 where
  wakes : Request
  changes : ChangeSet → Request
  fetches : ℕ → Request
  -- now, id, subject, tags, opts
  inserts : ℕ → ℕ → List ℕ → List (List ℕ) → PostCreationOpts → Request
  tags : ℕ → Request

-- Where no pulse is to come, no fetch is deferred, no message waits to be encoded, and the change
-- sets that are buffered are those of threads that are not there.
abbrev pub Buffers : Bool → (ℕ → Bool) → List ChangeSet → List ℕ → Option Encoder → Type 0
Buffers true known sets waiting enc = Unit {0}
Buffers false known sets waiting enc = (sets ≡ unknown known sets) × (waiting ≡ []) × (enc ≡ none)

abbrev pub IsScheduled : IndexFeed → Type 0
IsScheduled f =
    Buffers f.pending_pulse (λ k. is_there (thread_of f.threads k)) f.changes f.deferred_fetches
      f.enc

unknown_twice :
    (known : ℕ → Bool) (sets : List ChangeSet)
    → unknown known sets ≡ unknown known (unknown known sets)
unknown_twice known [] = refl
unknown_twice known (cs ∷ rest) = elim (Bool-cases (known cs.source_feed)) [
  | inl e ↦ rw e (unknown_twice known rest)
  | inr e ↦ rw e (rw e (ap (λ l. cs ∷ l) (unknown_twice known rest)))
]

module _ (payload : ThreadWithPosts → Payload) (encode_tags : List (List ℕ) → Option Message) where
  unfoldable pub handle : IndexFeed → Request → IndexFeed × List Sent
  unfolding wake_up change_set fetch_feed_data insert_thread used_tags
  handle f wakes = wake_up f
  handle f (changes cs) = change_set f cs
  handle f (fetches client) = fetch_feed_data f client
  handle f (inserts now id subject ts opts) = insert_thread f now id subject ts opts payload
  handle f (tags client) = used_tags f client encode_tags

  schedule_pulse-pending : (f : IndexFeed) → (schedule_pulse f).0.pending_pulse ≡ true
  unfolding schedule_pulse
  schedule_pulse-pending f = ground arith

  fetch-IsScheduled :
      (f : IndexFeed) (client : ℕ) (o : Option Message)
      → IsScheduled f
      → IsScheduled (fetch f client o).0
  unfolding fetch_feed_data
  fetch-IsScheduled f client (some msg) h = h
  fetch-IsScheduled f client none h = rw (schedule_pulse-pending f) tt

  tags_sent-IsScheduled :
      (f : IndexFeed) (client : ℕ) (o : Option Message)
      → IsScheduled f
      → IsScheduled (tags_sent f client o).0
  tags_sent-IsScheduled f client none h = h
  tags_sent-IsScheduled f client (some msg) h = h

  tags_of-IsScheduled :
      (f : IndexFeed) (client : ℕ) (o : Option Message)
      → IsScheduled f
      → IsScheduled (tags_of f client encode_tags o).0
  tags_of-IsScheduled f client (some msg) h = h
  tags_of-IsScheduled f client none h = tags_sent-IsScheduled f client _ h

  handle-IsScheduled : (f : IndexFeed) (q : Request) → IsScheduled f → IsScheduled (handle f q).0
  unfolding handle
  handle-IsScheduled f wakes h = rw (schedule_pulse-pending f) tt
  handle-IsScheduled f (changes cs) h = rw (schedule_pulse-pending f) tt
  handle-IsScheduled f (fetches client) h =
      fetch-IsScheduled f client (get_cached_message f.threads.bundle) h
  handle-IsScheduled f (inserts now id subject ts opts) h = rw (schedule_pulse-pending f) tt
  handle-IsScheduled f (tags client) h = tags_of-IsScheduled f client f.threads.used_tags h

  module _ (encode : MessageType → ThreadWithPosts → Option Message) (start end : Message)
      (deflate : List ℕ → List ℕ) where
    Applies-IsScheduled :
        (f r : IndexFeed) → Applies encode f r → r.pending_pulse ≡ false → IsScheduled r
    Applies-IsScheduled f r a e =
        let known : (λ k. is_there (thread_of r.threads k))
            ≡ (λ k. is_there (thread_of f.threads k)) =
          fun_ext λ k. ap is_there (a.threads k) ∙ is_there-if_there _ (thread_of f.threads k) in
        rw e (
          a.changes
              ∙ unknown_twice (known_in encode f.threads) f.changes
              ∙ ap₂ unknown (sym known) (sym a.changes),
          a.deferred,
          a.written,
        )

    send_deferred-pending :
        (f : IndexFeed) (r : Bundle ThreadWithPosts × Option Message)
        → (send_deferred encode start end deflate f r).0.0.pending_pulse ≡ f.pending_pulse
    send_deferred-pending f (b, none) = refl
    send_deferred-pending f (b, some msg) = refl

    deferred-pending :
        (f : IndexFeed) (waiting : List ℕ)
        → (deferred encode start end deflate f waiting).0.0.pending_pulse ≡ f.pending_pulse
    deferred-pending f [] = refl
    deferred-pending f (c ∷ cs) = send_deferred-pending f _

    pulse-pending :
        (f : IndexFeed) (clients : List ℕ)
        → (pulse encode start end deflate f clients).0.0.pending_pulse ≡ false
    unfolding pulse
    pulse-pending f clients =
        deferred-pending (record f { pending_pulse = false; clients = clients }) f.deferred_fetches

    -- Where the feed is scheduled, its cached encodings are fresh and all threads encode, the feed
    -- is scheduled after any request, and also after a pulse. Scheduled is a feed in which, where no
    -- pulse is to come, no fetch is deferred, no message waits to be encoded, and the change sets
    -- that are buffered are those of threads that are not there.
    pub handle_pulse-IsScheduled :
        (f : IndexFeed) (q : Request) (clients : List ℕ) (msg : Message)
        → IsScheduled f
        → IsFresh encode MessageType.thread_abbreviated start end f.threads.bundle
        → encode_all encode MessageType.thread_abbreviated start end (values f.threads.bundle.items)
          ≡ some msg
        → IsScheduled (handle f q).0 × IsScheduled (pulse encode start end deflate f clients).0.0
    handle_pulse-IsScheduled f q clients msg h fresh e = (
      handle-IsScheduled f q h,
      Applies-IsScheduled f (pulse encode start end deflate f clients).0.0
          (pulse-Applies encode start end deflate f clients msg fresh e).1
          (pulse-pending f clients),
    )
