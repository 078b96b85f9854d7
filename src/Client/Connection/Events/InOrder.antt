-- ===== src/Client/Connection/Events/InOrder.antt =====
-- Deferrable messages are sent in the order of the requests (client/src/connection.rs).
use shamichan.Prelude.{
  ℕ, ◌≡◌, refl, sym, subst, List, [], ◌∷◌, ◌++◌, append_assoc, append-nil, some, Bool, true, false,
  not, ◌&&◌, ◌||◌,
}
use shamichan.Client.State.{KeyPair}
use shamichan.Client.Connection.{
  Connection, State, Env, Attempt, reset_reconn_attempts, reset_socket_and_timer, send, can_send,
  connect, state_eq,
}
use shamichan.Client.Connection.Received.{outside, on_message}
use shamichan.Client.Connection.Events.{
  Event, Input, Step, event, input, join, leave, update, handle_input, step, run, connected,
  disconnected, create, initial, is_other_key, handshaken, key_eq,
}
use shamichan.Client.Connection.Events.Deferred.{
  kept, taken, Holds, Holds-set_state, Holds-if, Holds-connect, Holds-handle_disconnect,
  Holds-reset_socket_and_timer, Holds-handle_close,
}
use shamichan.Client.Connection.Events.Flushing.{live-receive_all, Holds-send, Holds-sent_now}

-- The sockets take what is sent, a message is received while there is a socket, and `p` tells the
-- messages to be deferred: those that edit the open post and the handshakes are not.
abbrev pub Orderly : (List ℕ → Bool) → Connection → Step → Type 0
Orderly p c (event env (Event.receive ms)) =
    ((m : List ℕ) → env.accepts m ≡ true) × ((n : ℕ) × (c.socket ≡ some n))
Orderly p c (event env e) = Unit
Orderly p c (input env (Input.message is_open_post_manipulation m)) =
    ((m : List ℕ) → env.accepts m ≡ true) × (p m ≡ not is_open_post_manipulation)
Orderly p c (input env (Input.handshake kp m)) =
    ((m : List ℕ) → env.accepts m ≡ true) × (p m ≡ false)
Orderly p c s = Unit

abbrev pub AllOrderly : (List ℕ → Bool) → Connection → List Step → Type 0
AllOrderly p c [] = Unit
AllOrderly p c (s ∷ ss) = Orderly p c s × AllOrderly p (step c s) ss

-- The messages to be deferred that are asked for.
abbrev pub asked : List Step → List (List ℕ)
asked [] = []
asked (input env (Input.message false m) ∷ ss) = m ∷ asked ss
asked (s ∷ ss) = asked ss

module _ (p : List ℕ → Bool) (q : List (List ℕ)) (env : Env) where
  Holds-update :
      (c : Connection) (e : Event)
      → Orderly p c (event env e)
      → Holds p q c
      → Holds p q (update env c e)
  unfolding update reset_reconn_attempts on_message
  Holds-update c Event.opened o h = record { in_order = h.in_order; flushed = h.flushed }
  Holds-update c Event.key_pair_changed o h =
      Holds-if p q (is_other_key env.key_pair.id c.authed_with) (connect env c) c
        (Holds-connect p q env c h) h
  Holds-update c (Event.close code reason) o h = Holds-handle_close p q c code reason h
  Holds-update c Event.error o h =
      let k = Holds-reset_socket_and_timer p q c h in
      Holds-set_state p q (reset_socket_and_timer c) State.disconnected k.in_order tt
  Holds-update c Event.try_reconnecting o h =
      Holds-if p q (state_eq c.state State.disconnected) (connect env c) c
        (Holds-connect p q env c h) h
  Holds-update c (Event.receive ms) (accepts, (n, e)) h =
      (live-receive_all env accepts p q n c outside ms (h, e)).0
  Holds-update c Event.visibility_changed o h =
      Holds-if p q
        ((env.hidden || not env.on_line) && not (state_eq c.state State.handshake_complete))
        (connect env c) c (Holds-connect p q env c h) h
  Holds-update c Event.went_online o h = Holds-connect p q env c h
  Holds-update c Event.went_offline o h = Holds-handle_disconnect p q c h

  Holds-handshaken : (a : Attempt) → Holds p q a.0 → Holds p q (handshaken env a)
  Holds-handshaken (c, true) h = Holds-set_state p q c State.handshaking h.in_order tt
  Holds-handshaken (c, false) h = h

  Holds-handshake :
      (c : Connection) (kp : KeyPair) (m : List ℕ)
      → Orderly p c (input env (Input.handshake kp m))
      → Holds p q c
      → Holds p q (handle_input env c (Input.handshake kp m))
  unfolding handle_input send
  Holds-handshake c kp m (accepts, e) h =
      Holds-if p q (key_eq env.key_pair kp) (handshaken env (send env c m true false)) c
        (Holds-handshaken (send env c m true false)
          (Holds-sent_now p q m env accepts c (can_send c.state true) c.socket e h))
        h

Holds-run :
    (p : List ℕ → Bool) (q : List (List ℕ)) (c : Connection) (ss : List Step)
    → AllOrderly p c ss
    → Holds p q c
    → Holds p (q ++ asked ss) (run c ss)
unfolding step handle_input send connected disconnected
Holds-run p q c [] o h = subst (λ r. Holds p r c) (sym (append-nil q)) h
Holds-run p q c (event env e ∷ ss) (o, os) h =
    Holds-run p q (update env c e) ss os (Holds-update p q env c e o h)
Holds-run p q c (input env (Input.message false m) ∷ ss) ((accepts, e), os) h =
    subst (λ r. Holds p r (run (handle_input env c (Input.message false m)) ss))
      (append_assoc q (m ∷ []) (asked ss))
      (Holds-run p (q ++ m ∷ []) (handle_input env c (Input.message false m)) ss os
        (Holds-send p q m env accepts c e h))
Holds-run p q c (input env (Input.message true m) ∷ ss) ((accepts, e), os) h =
    Holds-run p q (handle_input env c (Input.message true m)) ss os
      (Holds-sent_now p q m env accepts c (can_send c.state false) c.socket e h)
Holds-run p q c (input env (Input.handshake kp m) ∷ ss) (o, os) h =
    Holds-run p q (handle_input env c (Input.handshake kp m)) ss os
      (Holds-handshake p q env c kp m o h)
Holds-run p q c (join id ∷ ss) (o, os) h =
    Holds-run p q (connected c id) ss os (record { in_order = h.in_order; flushed = h.flushed })
Holds-run p q c (leave id ∷ ss) (o, os) h =
    Holds-run p q (disconnected c id) ss os (record { in_order = h.in_order; flushed = h.flushed })

-- From the start, and while the sockets take what is sent and messages are received only while there
-- is a socket, the messages that do not edit the open post and are no handshakes are sent or wait,
-- none is lost or sent twice, and they keep the order of the requests.
pub taken-run :
    (p : List ℕ → Bool) (env : Env) (ss : List Step)
    → AllOrderly p (create env) ss
    → kept p (taken (run (create env) ss)) ≡ asked ss
unfolding create
taken-run p env ss o =
    let start : Holds p [] initial = record { in_order = refl; flushed = tt } in
    (Holds-run p [] (create env) ss o (Holds-connect p [] env initial start)).in_order
