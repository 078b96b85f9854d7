-- ===== src/Server/Registry/Sync.antt =====
-- The registry's indexes agree with the clients' own records.
use shamichan.Prelude.{
  ℕ, ◌≡◌, refl, List, [], Option, none, some, Bool, false, if◌then◌else◌, ◌==◌, ◌&&◌, arith,
  Bool-cases, Option-cases, inl, inr,
}
use shamichan.Prelude.Eq.{ℕ_eq}
use shamichan.Collections.HashMap
use shamichan.Collections.HashMap.{HashMap}
use shamichan.Collections.SetMap
use shamichan.Server.Snapshot.{SnapshotSource, Snapshot, snapshot, deref_mut}
use shamichan.Server.Snapshot
use shamichan.Server.Registry.{
  Registry, ClientDescriptor, Clients, Result, AnyFeed, ok, err, register_client, forget, join,
  leave_feed, leave_key, enter, same_feed, unregister_client, set_on, set_feed, find_feed,
  set_public_key, snapshot_clients, new,
}

-- The address under which a feed's client set holds a client.
abbrev pub held : Option (SnapshotSource Clients) → ℕ → Option ℕ
held none c = none
held (some s) c = HashMap.get s.val c

-- The address that a client's record gives for a feed: its own, if that is its feed.
abbrev pub on_feed : Option ClientDescriptor → ℕ → Option ℕ
on_feed none f = none
on_feed (some d) f = if same_feed d.feed f then some d.addr else none

abbrev pub has_key : Option ClientDescriptor → ℕ → Bool
has_key none k = false
has_key (some d) k = same_feed d.pub_key k

-- A feed's client set holds exactly the clients whose record names the feed, with their addresses,
-- and a key's set exactly the clients whose record names the key.
pub record IsSynced (r : Registry) : Type 0 where
  pub feeds :
      (f c : ℕ) → held (HashMap.get r.feed_clients f) c ≡ on_feed (HashMap.get r.clients c) f
  pub keys : (k c : ℕ) → SetMap.relates r.by_pub_key k c ≡ has_key (HashMap.get r.clients c) k

held-forget :
    (m : HashMap ℕ (SnapshotSource Clients)) (feed client f c : ℕ)
    → held (HashMap.get (forget m feed client) f) c
      ≡ (if feed == f && client == c then none else held (HashMap.get m f) c)
unfolding forget deref_mut
held-forget m feed client f c = elim (Option-cases (HashMap.get m feed)) [
  | inl e ↦ rw (e, forget) (ground arith)
  | inr (s, e) ↦
      rw (e, forget)
        (ground (
          arith,
          HashMap.get-insert m feed f (deref_mut (λ h. HashMap.remove h client) s),
          HashMap.get-remove s.val client c,
        ))
]

held-join :
    (m : HashMap ℕ (SnapshotSource Clients)) (feed client addr f c : ℕ)
    → held (HashMap.get (join m feed client addr) f) c
      ≡ (if feed == f && client == c then some addr else held (HashMap.get m f) c)
unfolding join deref_mut Snapshot.new
held-join m feed client addr f c = elim (Option-cases (HashMap.get m feed)) [
  | inl e ↦
      rw (e, join)
        (ground (
          arith,
          HashMap.get-insert m feed f (Snapshot.new (HashMap.insert [] client addr)),
          HashMap.get-insert [] client c addr,
          HashMap.get_empty {V = ℕ} c,
        ))
  | inr (s, e) ↦
      rw (e, join)
        (ground (
          arith,
          HashMap.get-insert m feed f (deref_mut (λ h. HashMap.insert h client addr) s),
          HashMap.get-insert s.val client c addr,
        ))
]

-- The registry keeps its indexes through each of its handlers.
pub new-IsSynced : (index_feed : ℕ) (threads : List (ℕ × ℕ)) → IsSynced (new index_feed threads)
unfolding new
new-IsSynced index_feed threads = record {
  feeds = λ f c. ground (
    arith,
    HashMap.get_empty {V = SnapshotSource Clients} f,
    HashMap.get_empty {V = ClientDescriptor} c,
  );
  keys = λ k c. ground (
    arith,
    SetMap.relates-get-none [] k c (HashMap.get_empty k),
    HashMap.get_empty {V = ClientDescriptor} c,
  );
}

-- Client identifiers come from the generator, so a new client's is not in use.
pub register_client-IsSynced :
    (r : Registry) (id addr : ℕ)
    → HashMap.get r.clients id ≡ none
    → IsSynced r
    → IsSynced (register_client r id addr)
unfolding register_client
register_client-IsSynced r id addr e h =
    let desc : ClientDescriptor = record { feed = none; pub_key = none; addr = addr } in
    record {
      feeds = λ f c. ground (arith, HashMap.get-insert r.clients id c desc, h.feeds f c);
      keys = λ k c. ground (arith, HashMap.get-insert r.clients id c desc, h.keys k c);
    }

pub set_public_key-IsSynced :
    (r : Registry) (client pub_key : ℕ)
    → ((d : ClientDescriptor) → HashMap.get r.clients client ≡ some d → d.pub_key ≡ none)
    → IsSynced r
    → IsSynced (set_public_key r client pub_key).0
unfolding set_public_key
set_public_key-IsSynced r client pub_key fresh h =
    elim (Option-cases (HashMap.get r.clients client)) [
      | inl e ↦ rw (e, set_public_key) h
      | inr (d, e) ↦
          let d' : ClientDescriptor = record d { pub_key = some pub_key } in
          rw (e, set_public_key)
            (record {
              feeds = λ f c. ground (arith, HashMap.get-insert r.clients client c d', h.feeds f c);
              keys = λ k c. ground (
                arith,
                fresh d e,
                HashMap.get-insert r.clients client c d',
                SetMap.relates-insert r.by_pub_key pub_key client k c,
                h.keys k c,
              );
            })
    ]

pub snapshot_clients-IsSynced :
    (r : Registry) (feed : ℕ) → IsSynced r → IsSynced (snapshot_clients r feed).0
unfolding snapshot_clients snapshot
snapshot_clients-IsSynced r feed h = elim (Option-cases (HashMap.get r.feed_clients feed)) [
  | inl e ↦ rw (e, snapshot_clients) h
  | inr (s, e) ↦
      rw (e, snapshot_clients)
        (record {
          feeds = λ f c.
              ground (arith, HashMap.get-insert r.feed_clients feed f (snapshot s).0, h.feeds f c);
          keys = λ k c. h.keys k c;
        })
]

-- The clean-up of the old feed and the registration on another.
enter-IsSynced :
    (r : Registry) (client feed : ℕ) (d : ClientDescriptor) (o : Option ℕ)
    → d.feed ≡ o
    → same_feed o feed ≡ false
    → HashMap.get r.clients client ≡ some d
    → IsSynced r
    → IsSynced (enter (leave_feed r client o) client feed d)
enter-IsSynced r client feed d none p n e h =
    let d' : ClientDescriptor = record d { feed = some feed } in
    record {
      feeds = λ f c. ground (
        arith,
        held-join r.feed_clients feed client d.addr f c,
        HashMap.get-insert r.clients client c d',
        h.feeds f c,
      );
      keys = λ k c. ground (arith, HashMap.get-insert r.clients client c d', h.keys k c);
    }
enter-IsSynced r client feed d (some old) p n e h =
    let d' : ClientDescriptor = record d { feed = some feed } in
    record {
      feeds = λ f c. ground (
        arith,
        held-join (forget r.feed_clients old client) feed client d.addr f c,
        held-forget r.feed_clients old client f c,
        HashMap.get-insert r.clients client c d',
        h.feeds f c,
      );
      keys = λ k c. ground (arith, HashMap.get-insert r.clients client c d', h.keys k c);
    }

pub set_feed-IsSynced :
    (r : Registry) (client feed : ℕ) → IsSynced r → IsSynced (set_feed r client feed).0.0
unfolding set_feed
set_feed-IsSynced r client feed h = go (find_feed r feed) (HashMap.get r.clients client) refl
  where
    go :
        (found : Result AnyFeed) (desc : Option ClientDescriptor)
        → HashMap.get r.clients client ≡ desc
        → IsSynced (set_on r client feed found desc).0.0
    go (err x) desc e = h
    go (ok new_feed) none e = h
    go (ok new_feed) (some d) e = elim (Bool-cases (same_feed d.feed feed)) [
      | inl same ↦ rw same h
      | inr other ↦ rw other (enter-IsSynced r client feed d d.feed refl other e h)
    ]

leave-IsSynced :
    (r : Registry) (client : ℕ) (d : ClientDescriptor) (o k : Option ℕ)
    → d.feed ≡ o
    → d.pub_key ≡ k
    → HashMap.get r.clients client ≡ some d
    → IsSynced r
    → let r' : Registry = record r { clients = HashMap.remove r.clients client } in
      IsSynced (leave_key (leave_feed r' client o) client k)
leave-IsSynced r client d none none p q e h = record {
  feeds = λ f c. ground (arith, HashMap.get-remove r.clients client c, h.feeds f c);
  keys = λ k c. ground (arith, HashMap.get-remove r.clients client c, h.keys k c);
}
leave-IsSynced r client d (some old) none p q e h = record {
  feeds = λ f c. ground (
    arith,
    HashMap.get-remove r.clients client c,
    held-forget r.feed_clients old client f c,
    h.feeds f c,
  );
  keys = λ k c. ground (arith, HashMap.get-remove r.clients client c, h.keys k c);
}
leave-IsSynced r client d none (some key) p q e h = record {
  feeds = λ f c. ground (arith, HashMap.get-remove r.clients client c, h.feeds f c);
  keys = λ k c. ground (
    arith,
    HashMap.get-remove r.clients client c,
    (SetMap.relates-remove r.by_pub_key key client k c).0,
    h.keys k c,
  );
}
leave-IsSynced r client d (some old) (some key) p q e h = record {
  feeds = λ f c. ground (
    arith,
    HashMap.get-remove r.clients client c,
    held-forget r.feed_clients old client f c,
    h.feeds f c,
  );
  keys = λ k c. ground (
    arith,
    HashMap.get-remove r.clients client c,
    (SetMap.relates-remove r.by_pub_key key client k c).0,
    h.keys k c,
  );
}

pub unregister_client-IsSynced :
    (r : Registry) (client : ℕ) → IsSynced r → IsSynced (unregister_client r client).0
unfolding unregister_client
unregister_client-IsSynced r client h = elim (Option-cases (HashMap.get r.clients client)) [
  | inl e ↦ rw (e, unregister_client) h
  | inr (d, e) ↦
      rw (e, unregister_client) (leave-IsSynced r client d d.feed d.pub_key refl refl e h)
]
