-- ===== src/Client/Connection/Events/Flushing.antt =====
-- What is sent and received keeps the order of deferred messages (client/src/connection.rs).
use shamichan.Prelude.{
  ℕ, ◌≡◌, refl, ap, ap₂, sym, ◌∙◌, subst, List, [], ◌∷◌, ◌++◌, append_assoc, append-nil, Option,
  none, some, Bool, true, false, if◌then◌else◌, arith, inl, inr, ◌⊎◌,
}
use shamichan.Payloads.{PubKeyStatus, HandshakeRes}
use shamichan.Client.State.Requests.{Request}
use shamichan.Client.Connection.{Connection, State, Env, Attempt, send, send_by, can_send}
use shamichan.Client.Connection.Received.{
  Incoming, Stream, outside, in_page, in_threads, receive, receive_all, handle_handshake,
  handle_status, authenticated, send_all, unless_failed, ack_post_insertion,
}
use shamichan.Client.Connection.Events.Deferred.{
  kept, kept-append, taken, Flushed, Holds, set_state-shape,
}

module _ (env : Env) (accepts : (m : List ℕ) → env.accepts m ≡ true) where
  send_ready :
      (c : Connection) (n : ℕ) (m : List ℕ)
      → c.state ≡ State.handshake_complete
      → c.socket ≡ some n
      → send env c m false false ≡ (record c { sent = c.sent ++ m ∷ [] }, true)
  unfolding send
  send_ready c n m h k =
      ap₂ (λ s o. send_by env c m (can_send s false) false o) h k
      ∙ ap (λ b. if b then (record c { sent = c.sent ++ m ∷ [] }, true) else (c, false)) (accepts m)

  send_all-ready :
      (ms : List (List ℕ)) (c : Connection) (n : ℕ)
      → c.state ≡ State.handshake_complete
      → c.socket ≡ some n
      → send_all env ms c ≡ record c { sent = c.sent ++ ms }
  unfolding send_all
  send_all-ready [] c n h k = ap (λ ms. record c { sent = ms }) (sym (append-nil c.sent))
  send_all-ready (m ∷ ms) c n h k =
      ap (λ r. unless_failed env r (send_all env ms)) (send_ready c n m h k)
      ∙ send_all-ready ms (record c { sent = c.sent ++ m ∷ [] }) n h k
      ∙ ap (λ ns. record c { sent = ns }) (append_assoc c.sent (m ∷ []) ms)

  module _ (p : List ℕ → Bool) (q : List (List ℕ)) (n : ℕ) where
    -- The connection holds a socket.
    abbrev pub Live : Connection → Type 0
    Live c = Holds p q c × (c.socket ≡ some n)

    requested : (c : Connection) (rs : List Request) → Live c → Live (record c { requests = rs })
    requested c rs (h, k) = (record { in_order = h.in_order; flushed = h.flushed }, k)

    live-authenticated :
        (c : Connection) (id : ℕ) (key : Option ℕ) → Live c → Live (authenticated env c id key)
    live-authenticated c id none (h, k) = (record { in_order = h.in_order; flushed = h.flushed }, k)
    live-authenticated c id (some j) (h, k) =
        (record { in_order = h.in_order; flushed = h.flushed }, k)

    flushed_nil : (s : State) (o : Option ℕ) → Flushed s o []
    flushed_nil State.handshake_complete (some n) = refl
    flushed_nil State.handshake_complete none = tt
    flushed_nil State.loading o = tt
    flushed_nil State.connecting o = tt
    flushed_nil State.handshaking o = tt
    flushed_nil State.disconnected o = tt
    flushed_nil State.critical_error o = tt

    live_flush :
        (c : Connection)
        → c.state ≡ State.handshake_complete
        → kept p (taken c) ≡ q
        → c.socket ≡ some n
        → Live (send_all env c.deferred (record c { deferred = [] }))
    live_flush c e h k =
        subst Live (sym (send_all-ready c.deferred (record c { deferred = [] }) n e k)) (
          record {
            in_order = ap (kept p) (append-nil (c.sent ++ c.deferred)) ∙ h;
            flushed = flushed_nil c.state c.socket;
          },
          k,
        )

    live-handle_status :
        (c : Connection) (id : ℕ) (status : PubKeyStatus)
        → Live c
        → Live (handle_status env c id status)
    live-handle_status c id PubKeyStatus.accepted (h, k) =
        let (r, e) = set_state-shape c State.handshake_complete in
        subst (λ d. Live (send_all env d.deferred (record d { deferred = [] }))) (sym e)
          (live_flush (record c { state = State.handshake_complete; responses = r }) refl h.in_order
            k)
    live-handle_status c id PubKeyStatus.need_resend (h, k) =
        (record { in_order = h.in_order; flushed = h.flushed }, k)
    live-handle_status c id PubKeyStatus.not_found (h, k) =
        (record { in_order = h.in_order; flushed = h.flushed }, k)

    live-handle_handshake :
        (c : Connection) (res : HandshakeRes) → Live c → Live (handle_handshake env c res)
    unfolding handle_handshake
    live-handle_handshake c res h =
        live-handle_status (authenticated env c res.id env.key_pair.id) res.id res.status
          (live-authenticated c res.id env.key_pair.id h)

    live-receive :
        (c : Connection) (s : Stream) (m : Incoming) → Live c → Live (receive env s c m).0
    unfolding receive ack_post_insertion
    live-receive c outside (Incoming.handshake res) h = live-handle_handshake c res h
    live-receive c outside m h = requested c _ h
    live-receive c (in_page ps) (Incoming.post p) h = h
    live-receive c (in_page ps) Incoming.page_end h = requested c _ h
    live-receive c (in_page ps) m h = h
    live-receive c (in_threads ts) (Incoming.thread_abbreviated t) h = h
    live-receive c (in_threads ts) Incoming.thread_index_end h = requested c _ h
    live-receive c (in_threads ts) m h = h

    live_turn :
        (b : Bool) (x y : Attempt)
        → Live x.0
        → Live y.0
        → Live (elim b as (λ x. Attempt) [ true ↦ x | false ↦ y ]).0
    live_turn true x y h k = h
    live_turn false x y h k = k

    pub live-receive_all :
        (c : Connection) (s : Stream) (ms : List Incoming)
        → Live c
        → Live (receive_all env s c ms).0
    live-receive_all c s [] h = h
    live-receive_all c s (m ∷ ms) h =
        let k = live-receive c s m h in
        let t = receive env s c m in
        live_turn t.1.1 (receive_all env t.1.0 t.0 ms) (t.0, false)
          (live-receive_all t.0 t.1.0 ms k) k

sends :
    (s : State) (o : Option ℕ) (d : List (List ℕ)) (n : ℕ)
    → Flushed s o d
    → can_send s false ≡ true
    → o ≡ some n
    → d ≡ []
sends State.handshake_complete (some k) d n h r e = h
sends State.handshake_complete none d n h r e = absurd (ground arith)
sends s o d n h r e = absurd (ground arith)

waits :
    (s : State) (o : Option ℕ) (d : List (List ℕ))
    → (can_send s false ≡ false) ⊎ (o ≡ none)
    → Flushed s o d
waits State.handshake_complete (some k) d (inl e) = absurd (ground arith)
waits State.handshake_complete (some k) d (inr e) = absurd (ground arith)
waits State.handshake_complete none d h = tt
waits State.loading o d h = tt
waits State.connecting o d h = tt
waits State.handshaking o d h = tt
waits State.disconnected o d h = tt
waits State.critical_error o d h = tt

module _ (p : List ℕ → Bool) (q : List (List ℕ)) (m : List ℕ) where
  kept_more :
      (ms : List (List ℕ)) → p m ≡ true → kept p ms ≡ q → kept p (ms ++ m ∷ []) ≡ q ++ m ∷ []
  kept_more ms h e = kept-append p ms (m ∷ []) ∙ ap₂ ◌++◌ e (ap (λ b. if b then m ∷ [] else []) h)

  kept_through :
      (ms ns : List (List ℕ)) → p m ≡ false → kept p ((ms ++ m ∷ []) ++ ns) ≡ kept p (ms ++ ns)
  kept_through ms ns h =
      kept-append p (ms ++ m ∷ []) ns
      ∙ ap (λ l. l ++ kept p ns)
          (kept-append p ms (m ∷ [])
            ∙ ap (λ b. kept p ms ++ (if b then m ∷ [] else [])) h
            ∙ append-nil (kept p ms))
      ∙ sym (kept-append p ms ns)

  last_swap : (ms ns : List (List ℕ)) → ns ≡ [] → (ms ++ m ∷ []) ++ ns ≡ (ms ++ ns) ++ m ∷ []
  last_swap ms ns e =
      ap (λ l. (ms ++ m ∷ []) ++ l) e
      ∙ append-nil (ms ++ m ∷ [])
      ∙ ap (λ l. l ++ m ∷ []) (sym (append-nil ms) ∙ ap (λ l. ms ++ l) (sym e))

  module _ (env : Env) (accepts : (n : List ℕ) → env.accepts n ≡ true) (c : Connection) where
    Holds-send_by :
        (ready : Bool) (o : Option ℕ)
        → p m ≡ true
        → Holds p q c
        → ((n : ℕ) → ready ≡ true → o ≡ some n → c.deferred ≡ [])
        → ((ready ≡ false) ⊎ (o ≡ none) → Flushed c.state c.socket (c.deferred ++ m ∷ []))
        → Holds p (q ++ m ∷ []) (send_by env c m ready true o).0
    Holds-send_by true (some n) h k now later = rw (accepts m) (record {
      in_order =
          ap (kept p) (last_swap c.sent c.deferred (now n refl refl))
          ∙ kept_more (taken c) h k.in_order;
      flushed = k.flushed;
    })
    Holds-send_by true none h k now later = record {
      in_order =
          ap (kept p) (sym (append_assoc c.sent c.deferred (m ∷ [])))
          ∙ kept_more (taken c) h k.in_order;
      flushed = later (inr refl);
    }
    Holds-send_by false o h k now later = record {
      in_order =
          ap (kept p) (sym (append_assoc c.sent c.deferred (m ∷ [])))
          ∙ kept_more (taken c) h k.in_order;
      flushed = later (inl refl);
    }

    pub Holds-send : p m ≡ true → Holds p q c → Holds p (q ++ m ∷ []) (send env c m false true).0
    unfolding send
    Holds-send h k =
        Holds-send_by (can_send c.state false) c.socket h k
          (λ n r e. sends c.state c.socket c.deferred n k.flushed r e)
          (λ r. waits c.state c.socket (c.deferred ++ m ∷ []) r)

    -- A message that is not to be deferred
    pub Holds-sent_now :
        (ready : Bool) (o : Option ℕ)
        → p m ≡ false
        → Holds p q c
        → Holds p q (send_by env c m ready false o).0
    Holds-sent_now true (some n) h k =
        rw (accepts m)
          (record { in_order = kept_through c.sent c.deferred h ∙ k.in_order; flushed = k.flushed })
    Holds-sent_now true none h k = k
    Holds-sent_now false o h k = k
