-- ===== src/Feeds/Index/Pulse.antt =====
-- `Handler<Pulse>` of `IndexFeed` (server/src/feeds/index/mod.rs).
-- The clients that the registry answers with are an argument; that it answers with an error, with
-- which the pulse ends, is not modelled.
use shamichan.Prelude.{
  ℕ, List, [], ◌∷◌, ◌++◌, map, Option, none, some, Bool, true, false, if◌then◌else◌, not,
}
use shamichan.Prelude.Eq.{ℕ_eq}
use shamichan.Collections.HashMap
use shamichan.Collections.HashMap.{HashMap}
use shamichan.Codec.MessageType.{MessageType}
use shamichan.Codec.Encoder.{Encoder, finish}
use shamichan.Payloads.{ThreadWithPosts}
use shamichan.Server.MessageCacher.{MessageCacher}
use shamichan.Server.MessageCacher
use shamichan.Feeds.Changes.{Change, ChangeSet, Sent, send_message, send_batch}
use shamichan.Feeds.Bundle.{Message, Bundle, get_message, deref_mut}
use shamichan.Feeds.Index.{Threads, IndexFeed, mutate, is_empty, apply_change, ThreadCacher}

module _ (encode : MessageType → ThreadWithPosts → Option Message) where
  abbrev pub apply_changes : List Change → ThreadCacher → ThreadCacher
  apply_changes [] t = t
  apply_changes (c ∷ cs) t = apply_changes cs (MessageCacher.deref_mut encode (apply_change c) t)

  -- The loop of `Handler<Pulse>` over the change sets: the threads, the sets that are delayed, and
  -- the messages of the sets that are applied.
  pub record Loop : Type 0 where
    pub threads : Threads
    pub changes : List ChangeSet
    pub batch : List Message

  -- One set, with the thread it is for, if that is there.
  abbrev pub apply_set : Bool → ChangeSet → Loop → Option ThreadCacher → Loop
  apply_set to_clients cs l none = record l {
    threads = mutate (λ m. m) l.threads;
    changes = l.changes ++ cs ∷ [];
  }
  apply_set to_clients cs l (some t) = record l {
    threads = mutate (λ m. HashMap.insert m cs.source_feed (apply_changes cs.changes t)) l.threads;
    batch = if to_clients then l.batch ++ cs.message ∷ [] else l.batch;
  }

  unfoldable pub apply_sets : Bool → List ChangeSet → Loop → Loop
  unfolding deref_mut MessageCacher.deref_mut apply_change
  apply_sets to_clients [] l = l
  apply_sets to_clients (cs ∷ rest) l =
      apply_sets to_clients rest
        (apply_set to_clients cs l (HashMap.get l.threads.bundle.items cs.source_feed))

  module _ (start end : Message) (deflate : List ℕ → List ℕ) where
    abbrev pub first_batch : Bool → Option Encoder → List Message
    first_batch to_clients none = []
    first_batch to_clients (some e) = if to_clients then finish deflate e ∷ [] else []

    abbrev pub batch_sent : List ℕ → List Message → List Sent
    batch_sent clients batch = if is_empty batch then [] else map (λ c. send_batch c batch) clients

    abbrev pub finish_pulse : IndexFeed → Loop → List Sent → IndexFeed × List Sent
    finish_pulse f l sent = (
      record f { threads = l.threads; changes = l.changes; enc = none },
      sent ++ batch_sent f.clients l.batch,
    )

    -- `Handler<Pulse>` behind the deferred fetches
    abbrev pub process : IndexFeed → List Sent → IndexFeed × List Sent
    process f sent =
        let to_clients = not (is_empty f.clients) in
        finish_pulse f
          (apply_sets to_clients f.changes
            (record { threads = f.threads; changes = []; batch = first_batch to_clients f.enc }))
          sent

    abbrev pub send_deferred :
        IndexFeed → Bundle ThreadWithPosts × Option Message → (IndexFeed × List Sent) × Bool
    send_deferred f (b, none) =
        ((record f { threads = record f.threads { bundle = b } }, []), false)
    send_deferred f (b, some msg) = (
      process (record f { threads = record f.threads { bundle = b }; deferred_fetches = [] })
          (map (λ c. send_message c msg) f.deferred_fetches),
      true,
    )

    abbrev pub deferred : IndexFeed → List ℕ → (IndexFeed × List Sent) × Bool
    deferred f [] = (process f [], true)
    deferred f (c ∷ cs) =
        send_deferred f
          (get_message encode MessageType.thread_abbreviated start end f.threads.bundle)

    -- `Handler<Pulse>` with the clients that the registry gives, and whether all threads encode: an
    -- error leaves what was done up to it.
    unfoldable pub pulse : IndexFeed → List ℕ → (IndexFeed × List Sent) × Bool
    unfolding apply_sets get_message
    pulse f clients =
        let f' : IndexFeed = record f { pending_pulse = false; clients = clients } in
        deferred f' f'.deferred_fetches
