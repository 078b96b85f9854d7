-- ===== src/Server/Registry.antt =====
-- The client registry of server/src/registry.rs. An actor's address is a number; the messages that
-- a handler sends to other actors are the list that it returns.
pub mod Sync
pub mod Reach
use shamichan.Prelude.{
  ℕ, List, [], ◌∷◌, ◌++◌, Option, none, some, Bool, true, false, if◌then◌else◌, ◌==◌,
}
use shamichan.Prelude.Eq.{ℕ_eq}
use shamichan.Collections.HashMap
use shamichan.Collections.HashMap.{HashMap}
use shamichan.Collections.SetMap
use shamichan.Collections.SetMap.{SetMap}
use shamichan.Server.Snapshot.{SnapshotSource, Snapshot, snapshot, deref_mut}
use shamichan.Server.Snapshot

pub record ClientDescriptor : Type 0 where
  pub feed : Option ℕ
  pub pub_key : Option ℕ
  pub addr : ℕ

abbrev pub Clients : Type 0
Clients = HashMap ℕ ℕ

pub record Registry : Type 0 where
  pub clients : HashMap ℕ ClientDescriptor
  pub feed_clients : HashMap ℕ (SnapshotSource Clients)
  pub by_pub_key : SetMap ℕ ℕ
  pub index_feed : ℕ
  pub feeds : HashMap ℕ ℕ

pub data AnyFeed : Type 0 where
  index thread : ℕ → AnyFeed

-- What a handler sends, with the addresses it sends to.
pub data Sent : Type 0 where
  wake_up : AnyFeed → Sent
  fetch_feed_data : AnyFeed → ℕ → Sent
  -- the new thread's identifier, to the index feed
  insert_thread : ℕ → ℕ → Sent

pub data Error : Type 0 where
  client_not_found feed_not_found : ℕ → Error

pub data Result {ℓ} (A : Type ℓ) : Type ℓ where
  ok : A → Result A
  err : Error → Result A

-- `Registry::get_thread_feed_addr`
unfoldable pub get_thread_feed_addr : Registry → ℕ → Result ℕ
get_thread_feed_addr r id = elim (HashMap.get r.feeds id) [
  | none ↦ err (feed_not_found id)
  | some a ↦ ok a
]

-- `Registry::wake_up_feed`: a missing thread feed is passed over.
unfoldable pub wake_up_feed : Registry → ℕ → List Sent
wake_up_feed r id =
    if id == 0
    then wake_up (index r.index_feed) ∷ []
    else elim (HashMap.get r.feeds id) [ none ↦ [] | some f ↦ wake_up (thread f) ∷ [] ]

-- `Handler<RegisterClient>`
unfoldable pub register_client : Registry → ℕ → ℕ → Registry
register_client r id addr = record r {
  clients = HashMap.insert r.clients id (record { feed = none; pub_key = none; addr = addr });
}

abbrev pub forget_in :
    HashMap ℕ (SnapshotSource Clients)
    → ℕ
    → ℕ
    → Option (SnapshotSource Clients)
    → HashMap ℕ (SnapshotSource Clients)
forget_in m feed client none = m
forget_in m feed client (some s) =
    HashMap.insert m feed (deref_mut (λ h. HashMap.remove h client) s)

-- `if let Some(s) = self.feed_clients.get_mut(feed) { s.remove(client); }`
unfoldable pub forget :
    HashMap ℕ (SnapshotSource Clients) → ℕ → ℕ → HashMap ℕ (SnapshotSource Clients)
forget m feed client = forget_in m feed client (HashMap.get m feed)

abbrev pub leave_feed : Registry → ℕ → Option ℕ → Registry
leave_feed r client none = r
leave_feed r client (some feed) = record r { feed_clients = forget r.feed_clients feed client }

abbrev pub leave_key : Registry → ℕ → Option ℕ → Registry
leave_key r client none = r
leave_key r client (some pub_key) = record r {
  by_pub_key = (SetMap.remove r.by_pub_key pub_key client).0;
}

abbrev pub wake_left : Registry → Option ℕ → List Sent
wake_left r none = []
wake_left r (some feed) = wake_up_feed r feed

-- The record goes, then the places in the feed's and the key's sets.
abbrev pub unregister : Registry → ℕ → Option ClientDescriptor → Registry × List Sent
unregister r client none = (r, [])
unregister r client (some desc) =
    let r' : Registry = record r { clients = HashMap.remove r.clients client } in
    (leave_key (leave_feed r' client desc.feed) client desc.pub_key, wake_left r' desc.feed)

-- `Handler<UnregisterClient>`: nothing, if the client is gone already.
unfoldable pub unregister_client : Registry → ℕ → Registry × List Sent
unregister_client r client = unregister r client (HashMap.get r.clients client)

abbrev pub join_in :
    HashMap ℕ (SnapshotSource Clients)
    → ℕ
    → ℕ
    → ℕ
    → Option (SnapshotSource Clients)
    → HashMap ℕ (SnapshotSource Clients)
join_in m feed client addr (some s) =
    HashMap.insert m feed (deref_mut (λ h. HashMap.insert h client addr) s)
join_in m feed client addr none =
    HashMap.insert m feed (Snapshot.new (HashMap.insert [] client addr))

-- The entry of `feed_clients` for the new feed, occupied or vacant.
unfoldable pub join :
    HashMap ℕ (SnapshotSource Clients) → ℕ → ℕ → ℕ → HashMap ℕ (SnapshotSource Clients)
join m feed client addr = join_in m feed client addr (HashMap.get m feed)

-- The feed's address, as a value of `AnyFeed`.
unfoldable pub find_feed : Registry → ℕ → Result AnyFeed
unfolding get_thread_feed_addr
find_feed r feed =
    if feed == 0
    then ok (index r.index_feed)
    else elim (get_thread_feed_addr r feed) [ ok a ↦ ok (thread a) | err e ↦ err e ]

-- The registration on the new feed, behind the clean-up of the old one.
abbrev pub enter : Registry → ℕ → ℕ → ClientDescriptor → Registry
enter r client feed desc = record r {
  clients = HashMap.insert r.clients client (record desc { feed = some feed });
  feed_clients = join r.feed_clients feed client desc.addr;
}

abbrev pub same_feed : Option ℕ → ℕ → Bool
same_feed none feed = false
same_feed (some old) feed = old == feed

abbrev pub switch : Registry → ℕ → ℕ → ClientDescriptor → AnyFeed → Registry × List Sent
switch r client feed desc new_feed = if same_feed desc.feed feed then (r, []) else (
  enter (leave_feed r client desc.feed) client feed desc,
  wake_left r desc.feed ++ wake_up new_feed ∷ fetch_feed_data new_feed desc.addr ∷ [],
)

abbrev pub set_on :
    Registry
    → ℕ
    → ℕ
    → Result AnyFeed
    → Option ClientDescriptor
    → (Registry × List Sent) × Result AnyFeed
set_on r client feed (err e) desc = ((r, []), err e)
set_on r client feed (ok new_feed) none = ((r, []), err (client_not_found client))
set_on r client feed (ok new_feed) (some desc) = (switch r client feed desc new_feed, ok new_feed)

-- `Handler<SetFeed>`: the registry after the call, what is sent, and the result.
unfoldable pub set_feed : Registry → ℕ → ℕ → (Registry × List Sent) × Result AnyFeed
set_feed r client feed = set_on r client feed (find_feed r feed) (HashMap.get r.clients client)

abbrev pub key_on : Registry → ℕ → ℕ → Option ClientDescriptor → Registry × Result (Unit {0})
key_on r client pub_key none = (r, err (client_not_found client))
key_on r client pub_key (some desc) = (
  record r {
    clients = HashMap.insert r.clients client (record desc { pub_key = some pub_key });
    by_pub_key = SetMap.insert r.by_pub_key pub_key client;
  },
  ok tt,
)

-- `Handler<SetPublicKey>`
unfoldable pub set_public_key : Registry → ℕ → ℕ → Registry × Result (Unit {0})
set_public_key r client pub_key = key_on r client pub_key (HashMap.get r.clients client)

-- `Handler<GetFeed>`
unfoldable pub get_feed : Registry → ℕ → Result ℕ
unfolding get_thread_feed_addr
get_feed r id = get_thread_feed_addr r id

-- `Handler<InsertThread>`, with the address of the feed that is started for the thread.
unfoldable pub insert_feed : Registry → ℕ → ℕ → (Registry × List Sent) × ℕ
insert_feed r id addr = (
  (record r { feeds = HashMap.insert r.feeds id addr }, insert_thread id r.index_feed ∷ []),
  addr,
)

abbrev pub snapshot_on :
    Registry → ℕ → Option (SnapshotSource Clients) → Registry × Snapshot Clients
snapshot_on r feed none = (r, record { snapshot_version = 0; val = [] })
snapshot_on r feed (some s) =
    (record r { feed_clients = HashMap.insert r.feed_clients feed (snapshot s).0 }, (snapshot s).1)

-- `Handler<SnapshotClients>`: the default snapshot for a feed that has no clients yet.
unfoldable pub snapshot_clients : Registry → ℕ → Registry × Snapshot Clients
snapshot_clients r feed = snapshot_on r feed (HashMap.get r.feed_clients feed)

-- `Handler<GetIndexFeed>`
unfoldable pub get_index_feed : Registry → ℕ
get_index_feed r = r.index_feed

start_feeds : HashMap ℕ ℕ → List (ℕ × ℕ) → HashMap ℕ ℕ
start_feeds m [] = m
start_feeds m ((id, addr) ∷ threads) = start_feeds (HashMap.insert m id addr) threads

-- `Registry::new`, over the threads of the database with the addresses of their feeds.
unfoldable pub new : ℕ → List (ℕ × ℕ) → Registry
unfolding start_feeds
new index_feed threads = record {
  clients = [];
  feed_clients = [];
  by_pub_key = [];
  index_feed = index_feed;
  feeds = start_feeds [] threads;
}
