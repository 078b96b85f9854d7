-- ===== src/Examples/Server.antt =====
-- Two clients on a feed, a source that takes two snapshots, and a cached message.
use shamichan.Prelude.{ℕ, ◌+◌, ◌≡◌, refl, List, [], ◌∷◌, get_elem?, Option, none, some, true, arith}
use shamichan.Prelude.Eq.{ℕ_eq}
use shamichan.Codec.MessageType.{MessageType}
use shamichan.Collections.HashMap
use shamichan.Server.Snapshot.{
  Snapshot, SnapshotSource, snapshot, snapshot_eq, source_eq, deref_mut, next,
}
use shamichan.Server.Snapshot
use shamichan.Server.Snapshot.Versions.{Use, History, run, run-snapshot_eq}
use shamichan.Server.MessageCacher.{
  MessageCacher, get_message, IsFaithful, Gives, get_message-Gives,
}
use shamichan.Server.MessageCacher
use shamichan.Server.Registry.{Registry, register_client, unregister_client}
use shamichan.Server.Registry
use shamichan.Server.Registry.Sync.{IsSynced}
use shamichan.Server.Registry.Reach.{Reach, Request, handle, Reach-IsSynced}

-- A snapshot, a change, and a second snapshot that is asked for twice.
abbrev uses : List (Use ℕ)
uses = Use.take ∷ Use.write (λ n. n + 1) ∷ Use.take ∷ Use.take ∷ []

abbrev second : Snapshot ℕ
second = record { snapshot_version = 2; val = 6 }

abbrev history : History ℕ
history = run (Snapshot.new 5, []) uses

newest : get_elem? history.1 0 ≡ some second
unfolding Snapshot.new snapshot deref_mut
newest = refl

newer : get_elem? history.1 1 ≡ some second
unfolding Snapshot.new snapshot deref_mut
newer = refl

second_eq : snapshot_eq second second ≡ true
unfolding snapshot_eq
second_eq = refl

source_second : source_eq history.0 second ≡ true
unfolding Snapshot.new snapshot deref_mut source_eq
source_second = refl

run-snapshot_eq_example : second.val ≡ second.val
run-snapshot_eq_example =
    run-snapshot_eq 5 uses 0 1 second second (omega arith) newest newer second_eq

-- Bytes are the encoding; a close of a post has none.
abbrev encode : MessageType → List ℕ → Option (List ℕ)
encode MessageType.close_post bytes = none
encode t bytes = some bytes

abbrev cacher : MessageCacher (List ℕ) (List ℕ)
cacher = record { val = 7 ∷ []; cached = some (MessageType.append, 7 ∷ []) }

get_message-Gives_example :
    Gives encode cacher MessageType.post (get_message encode cacher MessageType.post)
    × IsFaithful encode (MessageCacher.deref_mut encode (λ bytes. 8 ∷ bytes) cacher)
get_message-Gives_example =
    get_message-Gives encode cacher MessageType.post (λ bytes. 8 ∷ bytes) refl

-- Two clients register, both look at the thread index.
abbrev requests : Registry
requests =
    handle
      (handle
        (handle (handle (Registry.new 1 ((30, 2) ∷ [])) (Request.registers 7 100))
          (Request.registers 8 101))
        (Request.sets_feed 7 0))
      (Request.sets_feed 8 0)

first_fresh : HashMap.get (Registry.new 1 ((30, 2) ∷ [])).clients 7 ≡ none
unfolding Registry.new HashMap.get
first_fresh = refl

second_fresh :
    HashMap.get (handle (Registry.new 1 ((30, 2) ∷ [])) (Request.registers 7 100)).clients 8 ≡ none
unfolding Registry.new register_client HashMap.get HashMap.insert
second_fresh = refl

reached : Reach requests
reached =
    Reach.handled (Request.sets_feed 8 0)
      (Reach.handled (Request.sets_feed 7 0)
        (Reach.handled (Request.registers 8 101)
          (Reach.handled (Request.registers 7 100) (Reach.started 1 ((30, 2) ∷ [])) first_fresh)
          second_fresh)
        tt)
      tt

requests-IsSynced : IsSynced requests
requests-IsSynced = Reach-IsSynced reached

Reach-IsSynced_example : IsSynced requests
Reach-IsSynced_example = Reach-IsSynced reached
