-- ===== src/Server/Client/Messages/Guarded.antt =====
-- The invariants of the messages of a client (server/src/client/message_handler.rs).
use shamichan.Prelude.{
  ℕ, ◌≡◌, ◌↔◌, refl, ap, sym, subst, List, [], ◌∷◌, Option, none, some, true, arith,
}
use shamichan.Codec.Encoder.{Encoder}
use shamichan.Server.Client.{
  Env, MessageHandler, Outcome, ConnState, connected, accepted_handshake, requested_reshake,
  synchronized, send, new,
}
use shamichan.Server.Client.Joins.{Ends, and_then-Ends}
use shamichan.Server.Client.Posts.Bounded.{AllBounded}
use shamichan.Server.Client.Handshake.Authentic.{
  Proven, Authentic, IsAuthentic, handle_handshake-IsAuthentic, handle_reshake-IsAuthentic,
}
use shamichan.Server.Client.Messages.{
  Received, handle_message_after_handshake, first_handshake, next_handshake, handle_in,
  handle_message, handle_rest, handle_messages, handle, taken, result_of, greet,
}
use shamichan.Server.Client.Messages.Stays.{is_accepted, handle_message_after_handshake-Stays}

abbrev pub run : Env → (List ℕ → List ℕ) → MessageHandler → List (List Received) → MessageHandler
run env deflate s [] = s
run env deflate s (ms ∷ rest) = run env deflate (handle env deflate s ms).0 rest

module _ (env : Env) where
  accepted-Authentic :
      (c : ConnState) (s : MessageHandler)
      → is_accepted c ≡ true
      → Authentic env c s ↔ (Proven env s.pub_key × AllBounded s.sent)
  accepted-Authentic connected s a = absurd (ground arith)
  accepted-Authentic (requested_reshake key) s a = absurd (ground arith)
  accepted-Authentic accepted_handshake s a = ((λ h. h), λ h. h)
  accepted-Authentic (synchronized id feed) s a = ((λ h. h), λ h. h)

  after_handshake-IsAuthentic :
      (s : MessageHandler) (m : Received)
      → is_accepted s.conn_state ≡ true
      → IsAuthentic env s
      → IsAuthentic env (handle_message_after_handshake env s m).0
  after_handshake-IsAuthentic s m a h =
      let (known, bounded) = (accepted-Authentic s.conn_state s a).0 h in
      let t = (handle_message_after_handshake env s m).0 in
      let stays =
        (handle_message_after_handshake-Stays env s.pub_key s m (a, refl, bounded)).holds in
      (accepted-Authentic t.conn_state t stays.0).1
        (subst (Proven env) (sym stays.1) known, stays.2)

  message-Authentic :
      (c : ConnState) (s : MessageHandler) (o : Option Encoder)
      → Authentic env c s
      → Authentic env c (record s { message = o })
  message-Authentic connected s o h = h
  message-Authentic (requested_reshake key) s o h = h
  message-Authentic accepted_handshake s o h = h
  message-Authentic (synchronized id feed) s o h = h

  first_handshake-IsAuthentic :
      (s : MessageHandler) (m : Received)
      → s.conn_state ≡ connected
      → IsAuthentic env s
      → Ends (IsAuthentic env) (first_handshake env s m)
  unfolding send
  first_handshake-IsAuthentic s (Received.handshake req) c h =
      and_then-Ends {f = greet env} (record { holds = handle_handshake-IsAuthentic env s req c h })
        λ t i. record { holds = message-Authentic t.conn_state t _ i }
  first_handshake-IsAuthentic s m c h = record { holds = h }

  next_handshake-IsAuthentic :
      (s : MessageHandler) (key : List ℕ) (m : Received)
      → s.conn_state ≡ requested_reshake key
      → IsAuthentic env s
      → IsAuthentic env (next_handshake env s key m).0
  next_handshake-IsAuthentic s key (Received.handshake req) c h =
      handle_reshake-IsAuthentic env s req key c h
  next_handshake-IsAuthentic s key m c h = h

  handle_in-IsAuthentic :
      (c : ConnState) (s : MessageHandler) (m : Received)
      → s.conn_state ≡ c
      → IsAuthentic env s
      → IsAuthentic env (handle_in env c s m).0
  handle_in-IsAuthentic connected s m e h = (first_handshake-IsAuthentic s m e h).holds
  handle_in-IsAuthentic (requested_reshake key) s m e h = next_handshake-IsAuthentic s key m e h
  handle_in-IsAuthentic accepted_handshake s m e h =
      after_handshake-IsAuthentic s m (ap is_accepted e) h
  handle_in-IsAuthentic (synchronized id feed) s m e h =
      after_handshake-IsAuthentic s m (ap is_accepted e) h

  handle_rest-IsAuthentic :
      (s : MessageHandler) (ms : List Received)
      → IsAuthentic env s
      → IsAuthentic env (handle_rest env s ms).0
  unfolding handle_message
  handle_rest-IsAuthentic s [] h = h
  handle_rest-IsAuthentic s (m ∷ ms) h =
      at (handle_message env s m) (handle_in-IsAuthentic s.conn_state s m refl h)
        (λ t. handle_rest-IsAuthentic t ms)
    where
      at :
          (r : Outcome)
          → IsAuthentic env r.0
          → ((t : MessageHandler) → IsAuthentic env t → IsAuthentic env (handle_rest env t ms).0)
          → IsAuthentic env
              (elim r.1 as (λ _. Outcome) [ some e ↦ r | none ↦ handle_rest env r.0 ms ]).0
      at (t, some e) i ih = i
      at (t, none) i ih = ih t i

  handle-IsAuthentic :
      (deflate : List ℕ → List ℕ) (s : MessageHandler) (ms : List Received)
      → IsAuthentic env s
      → IsAuthentic env (handle env deflate s ms).0
  unfolding handle handle_messages
  handle-IsAuthentic deflate s ms h = taken_of (handle_messages env s ms) (all ms)
    where
      all : (ms : List Received) → IsAuthentic env (handle_messages env s ms).0
      all [] = h
      all (m ∷ ms) = handle_rest-IsAuthentic s (m ∷ ms) h

      taken_of : (r : Outcome) → IsAuthentic env r.0 → IsAuthentic env (result_of env deflate r).0
      taken_of (t, some e) i = i
      taken_of (t, none) i = taken_by t.message
        where
          taken_by : (o : Option Encoder) → IsAuthentic env (taken env deflate t o).0
          taken_by none = i
          taken_by (some e) = message-Authentic t.conn_state t none i

  run_from-IsAuthentic :
      (deflate : List ℕ → List ℕ) (s : MessageHandler) (batches : List (List Received))
      → IsAuthentic env s
      → IsAuthentic env (run env deflate s batches)
  run_from-IsAuthentic deflate s [] h = h
  run_from-IsAuthentic deflate s (ms ∷ rest) h =
      run_from-IsAuthentic deflate (handle env deflate s ms).0 rest
        (handle-IsAuthentic deflate s ms h)

  -- Whatever a client sends: before it is accepted it has no open post and nothing was sent to a feed
  -- for it, and a key it is asked to prove is the registered one. Once it is accepted, its key was
  -- registered just then, or a signature was verified with the key that the database has under its
  -- identifier; and no open body that was sent to a feed is longer than 2000 characters.
  pub run-IsAuthentic :
      (deflate : List ℕ → List ℕ) (batches : List (List Received))
      → IsAuthentic env (run env deflate new batches)
  unfolding new
  run-IsAuthentic deflate batches = run_from-IsAuthentic deflate new batches (refl, refl)
