-- ===== src/Server/Client/Handshake/Authentic.antt =====
-- Who is accepted has proved that the key is theirs (server/src/client/message_handler.rs).
use shamichan.Prelude.{
  ℕ, ◌≡◌, refl, ◌⊎◌, sym, subst, List, [], Option, none, some, Bool, true, false, ◌==◌, length,
  Bool-cases, inl, inr,
}
use shamichan.Payloads.{Authorization, new_pub_key, saved, HandshakeReq}
use shamichan.Server.Client.{
  send, Env, MessageHandler, ConnState, connected, accepted_handshake, requested_reshake,
  synchronized, PubKeyDesc,
}
use shamichan.Server.Client.Posts.Bounded.{AllBounded, empty-AllBounded}
use shamichan.Server.Client.Names.{check_len}
use shamichan.Server.Client.Handshake.{
  verified, handle_auth_saved, accept_fresh, registered, found, authorize, handle_handshake,
  reauthorize, handle_reshake, version, with_key,
}

module _ (env : Env) where
  -- The database knows the key under this identifier.
  abbrev pub Knows : List ℕ → PubKeyDesc → Type 0
  Knows key p =
      (env.get_public_key p.pub_id ≡ some (some (p.priv_id, key)))
      ⊎ (env.register_public_key key ≡ some (p.priv_id, p.pub_id, false))

  -- The key of this identifier was registered just now, or a signature was verified with it.
  pub data Proven (p : PubKeyDesc) : Type 0 where
    fresh :
        (key : List ℕ) → env.register_public_key key ≡ some (p.priv_id, p.pub_id, true) → Proven p
    signed :
        (key nonce signature : List ℕ)
        → Knows key p
        → env.verify key p.pub_id nonce signature ≡ some true
        → Proven p

  -- Before a client is accepted it has no open post and nothing was sent to a feed, and a key that is
  -- to be proved is the one that is registered. A client that is accepted has proved its key, and the
  -- open bodies that were sent are bounded.
  abbrev pub Authentic : ConnState → MessageHandler → Type 0
  Authentic connected s = (s.open_post ≡ none) × (s.sent ≡ [])
  Authentic (requested_reshake key) s =
      (env.register_public_key key ≡ some (s.pub_key.priv_id, s.pub_key.pub_id, false))
      × (s.open_post ≡ none)
      × (s.sent ≡ [])
  Authentic accepted_handshake s = Proven s.pub_key × AllBounded s.sent
  Authentic (synchronized id feed) s = Proven s.pub_key × AllBounded s.sent

  abbrev pub IsAuthentic : MessageHandler → Type 0
  IsAuthentic s = Authentic s.conn_state s

  verified-IsAuthentic :
      (s : MessageHandler) (key nonce signature : List ℕ) (o : Option Bool)
      → env.verify key s.pub_key.pub_id nonce signature ≡ o
      → Knows key s.pub_key
      → s.sent ≡ []
      → IsAuthentic s
      → IsAuthentic (verified env s o).0
  unfolding send
  verified-IsAuthentic s key nonce signature none e k n h = h
  verified-IsAuthentic s key nonce signature (some false) e k n h = h
  verified-IsAuthentic s key nonce signature (some true) e k n h =
      (signed key nonce signature k e, empty-AllBounded s.sent n)

  accept_fresh-IsAuthentic :
      (s : MessageHandler) (pub_id : ℕ) (b : Bool)
      → Proven s.pub_key
      → s.sent ≡ []
      → IsAuthentic s
      → IsAuthentic (accept_fresh env s pub_id b).0
  unfolding send
  accept_fresh-IsAuthentic s pub_id true p n h = (p, empty-AllBounded s.sent n)
  accept_fresh-IsAuthentic s pub_id false p n h = h

  -- With another key, a client that is not accepted stays so.
  connected-with_key :
      (s : MessageHandler) (priv_id pub_id : ℕ)
      → s.conn_state ≡ connected
      → IsAuthentic s
      → IsAuthentic (with_key env s priv_id pub_id)
  connected-with_key s priv_id pub_id e h =
      let moved : Authentic connected s = subst (λ c. Authentic c s) e h in
      subst (λ c. Authentic c (with_key env s priv_id pub_id)) (sym e) moved

  connected-sent : (s : MessageHandler) → s.conn_state ≡ connected → IsAuthentic s → s.sent ≡ []
  connected-sent s e h =
      let moved : Authentic connected s = subst (λ c. Authentic c s) e h in moved.1

  registered-IsAuthentic :
      (s : MessageHandler) (key : List ℕ) (o : Option (ℕ × ℕ × Bool))
      → env.register_public_key key ≡ o
      → s.conn_state ≡ connected
      → IsAuthentic s
      → IsAuthentic (registered env s key o).0
  unfolding send
  registered-IsAuthentic s key none e c h = h
  registered-IsAuthentic s key (some (priv_id, pub_id, true)) e c h =
      accept_fresh-IsAuthentic (with_key env s priv_id pub_id) pub_id (env.set_public_key priv_id)
        (fresh key e) (connected-sent s c h) (connected-with_key s priv_id pub_id c h)
  registered-IsAuthentic s key (some (priv_id, pub_id, false)) e c h =
      let (a, b) : Authentic connected s = subst (λ k. Authentic k s) c h in (e, a, b)

  found-IsAuthentic :
      (s : MessageHandler) (pub_id : ℕ) (nonce signature : List ℕ)
      (o : Option (Option (ℕ × List ℕ)))
      → env.get_public_key pub_id ≡ o
      → s.conn_state ≡ connected
      → IsAuthentic s
      → IsAuthentic (found env s pub_id nonce signature o).0
  unfolding send handle_auth_saved
  found-IsAuthentic s pub_id nonce signature none e c h = h
  found-IsAuthentic s pub_id nonce signature (some none) e c h =
      let moved : Authentic connected s = subst (λ k. Authentic k s) c h in
      subst (λ k. Authentic k (found env s pub_id nonce signature (some none)).0) (sym c) moved
  found-IsAuthentic s pub_id nonce signature (some (some (priv_id, key))) e c h =
      verified-IsAuthentic (with_key env s priv_id pub_id) key nonce signature _ refl (inl e)
        (connected-sent s c h) (connected-with_key s priv_id pub_id c h)

  authorize-IsAuthentic :
      (s : MessageHandler) (auth : Authorization)
      → s.conn_state ≡ connected
      → IsAuthentic s
      → IsAuthentic (authorize env s auth).0
  authorize-IsAuthentic s (new_pub_key key) c h = elim (Bool-cases (check_len (length key) 1024)) [
    | inl e ↦ rw e (registered-IsAuthentic s key _ refl c h)
    | inr e ↦ rw e h
  ]
  authorize-IsAuthentic s (saved pub_id nonce signature) c h =
      found-IsAuthentic s pub_id nonce signature _ refl c h

  pub handle_handshake-IsAuthentic :
      (s : MessageHandler) (req : HandshakeReq)
      → s.conn_state ≡ connected
      → IsAuthentic s
      → IsAuthentic (handle_handshake env s req).0
  unfolding handle_handshake
  handle_handshake-IsAuthentic s req c h = elim (Bool-cases (req.protocol_version == version)) [
    | inl e ↦ rw e (authorize-IsAuthentic s req.auth c h)
    | inr e ↦ rw e h
  ]

  reauthorize-IsAuthentic :
      (s : MessageHandler) (key : List ℕ) (auth : Authorization)
      → s.conn_state ≡ requested_reshake key
      → IsAuthentic s
      → IsAuthentic (reauthorize env s key auth).0
  unfolding handle_auth_saved
  reauthorize-IsAuthentic s key (new_pub_key other) c h = h
  reauthorize-IsAuthentic s key (saved pub_id nonce signature) c h =
      let asked : Authentic (requested_reshake key) s = subst (λ k. Authentic k s) c h in
      elim (Bool-cases (pub_id == s.pub_key.pub_id)) [
        | inl e ↦ rw e (verified-IsAuthentic s key nonce signature _ refl (inr asked.0) asked.2 h)
        | inr e ↦ rw e h
      ]

  pub handle_reshake-IsAuthentic :
      (s : MessageHandler) (req : HandshakeReq) (key : List ℕ)
      → s.conn_state ≡ requested_reshake key
      → IsAuthentic s
      → IsAuthentic (handle_reshake env s req key).0
  unfolding handle_reshake
  handle_reshake-IsAuthentic s req key c h = elim (Bool-cases (req.protocol_version == version)) [
    | inl e ↦ rw e (reauthorize-IsAuthentic s key req.auth c h)
    | inr e ↦ rw e h
  ]
