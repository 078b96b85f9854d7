-- ===== src/Server/Registry/Reach.antt =====
-- The registry's indexes agree with the clients' own records in every registry that is reached.
use shamichan.Prelude.{
  ℕ, ◌≡◌, refl, ap, ◌∙◌, List, Option, none, some, false, arith, Option-cases, inl, inr,
}
use shamichan.Prelude.Eq.{ℕ_eq}
use shamichan.Collections.HashMap
use shamichan.Collections.SetMap
use shamichan.Server.Registry.{
  Registry, ClientDescriptor, register_client, unregister_client, set_feed, set_public_key,
  insert_feed, snapshot_clients, new, leave_key, leave_feed,
}
use shamichan.Server.Registry.Sync.{
  IsSynced, held, on_feed, has_key, new-IsSynced, register_client-IsSynced, set_public_key-IsSynced,
  snapshot_clients-IsSynced, set_feed-IsSynced, unregister_client-IsSynced,
}

-- A message to the registry, with the address of the feed that is started for a new thread.
pub data Request : Type 0 where
  registers sets_feed sets_key inserts : ℕ → ℕ → Request
  unregisters gets snapshots : ℕ → Request
  gets_index : Request

abbrev pub handle : Registry → Request → Registry
handle r (registers id addr) = register_client r id addr
handle r (sets_feed client feed) = (set_feed r client feed).0.0
handle r (sets_key client key) = (set_public_key r client key).0
handle r (inserts id addr) = (insert_feed r id addr).0.0
handle r (unregisters client) = (unregister_client r client).0
handle r (gets id) = r
handle r (snapshots feed) = (snapshot_clients r feed).0
handle r gets_index = r

-- What the registry relies on: a client is registered under a new identifier, and gives its public
-- key once.
abbrev pub IsFresh : Registry → Request → Type 0
IsFresh r (registers id addr) = HashMap.get r.clients id ≡ none
IsFresh r (sets_key client key) =
    (d : ClientDescriptor) → HashMap.get r.clients client ≡ some d → d.pub_key ≡ none
IsFresh r _ = Unit {0}

insert_feed-IsSynced :
    (r : Registry) (id addr : ℕ) → IsSynced r → IsSynced (insert_feed r id addr).0.0
unfolding insert_feed
insert_feed-IsSynced r id addr h = record { feeds = h.feeds; keys = h.keys }

-- Every handler keeps the indexes in step with the clients' records.
pub handle-IsSynced :
    (r : Registry) (q : Request) → IsFresh r q → IsSynced r → IsSynced (handle r q)
handle-IsSynced r (registers id addr) e h = register_client-IsSynced r id addr e h
handle-IsSynced r (sets_feed client feed) e h = set_feed-IsSynced r client feed h
handle-IsSynced r (sets_key client key) e h = set_public_key-IsSynced r client key e h
handle-IsSynced r (inserts id addr) e h = insert_feed-IsSynced r id addr h
handle-IsSynced r (unregisters client) e h = unregister_client-IsSynced r client h
handle-IsSynced r (gets id) e h = h
handle-IsSynced r (snapshots feed) e h = snapshot_clients-IsSynced r feed h
handle-IsSynced r gets_index e h = h

-- The registries that a new one reaches.
pub data Reach : Registry → Type 0 where
  started : (index_feed : ℕ) (threads : List (ℕ × ℕ)) → Reach (new index_feed threads)
  handled : {r : Registry} (q : Request) → Reach r → IsFresh r q → Reach (handle r q)

-- In every registry that is reached, where clients register under new identifiers and give their
-- public key once, a feed's client set holds exactly the clients whose record names the feed, under
-- their addresses, and a key's set exactly the clients whose record names the key.
pub Reach-IsSynced : {r : Registry} → Reach r → IsSynced r
Reach-IsSynced (started index_feed threads) = new-IsSynced index_feed threads
Reach-IsSynced (handled {r} q before fresh) = handle-IsSynced r q fresh (Reach-IsSynced before)

leave_clients :
    (r : Registry) (client : ℕ) (o k : Option ℕ)
    → (leave_key (leave_feed r client o) client k).clients ≡ r.clients
leave_clients r client none none = refl
leave_clients r client none (some key) = refl
leave_clients r client (some feed) none = refl
leave_clients r client (some feed) (some key) = refl

get-unregister_client :
    (r : Registry) (client : ℕ) → HashMap.get (unregister_client r client).0.clients client ≡ none
unfolding unregister_client
get-unregister_client r client = elim (Option-cases (HashMap.get r.clients client)) [
  | inl e ↦ rw (e, unregister_client) e
  | inr (d, e) ↦
      rw (e, unregister_client)
        (rw
          (leave_clients (record r { clients = HashMap.remove r.clients client }) client d.feed
            d.pub_key)
          (ground (arith, HashMap.get-remove r.clients client client)))
]

-- A client that is unregistered leaves no trace: no record, no place in a feed's client set, and none
-- in a key's set.
unregister_client_gone :
    (r : Registry) (client f k : ℕ)
    → IsSynced r
    → let r' = (unregister_client r client).0 in
      (HashMap.get r'.clients client ≡ none)
      × (held (HashMap.get r'.feed_clients f) client ≡ none)
      × (SetMap.relates r'.by_pub_key k client ≡ false)
unregister_client_gone r client f k h =
    let h' = unregister_client-IsSynced r client h in
    let e = get-unregister_client r client in
    (e, h'.feeds f client ∙ ap (λ o. on_feed o f) e, h'.keys k client ∙ ap (λ o. has_key o k) e)
