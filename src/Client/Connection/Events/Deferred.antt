-- ===== src/Client/Connection/Events/Deferred.antt =====
-- Messages that wait for the handshake (client/src/connection.rs).
use shamichan.Prelude.{
  ℕ, ◌≡◌, refl, ap, sym, ◌∙◌, List, [], ◌∷◌, ◌++◌, map, subst, eqb→eq, ◌+◌, Option, none, some,
  Bool, true, false, not, ◌==◌, if◌then◌else◌, Bool-cases, inl, inr, ◌&&◌,
}
use shamichan.Feeds.Index.{is_empty}
use shamichan.Client.Location.{text_eq}
use shamichan.Client.State.Requests.{Request}
use shamichan.Client.Connection.{
  delay, Connection, State, Env, state_eq, state_number, set_state, handle_disconnect,
  reset_socket_and_timer, close_socket, connect, opened,
}
use shamichan.Client.Connection.Received.{request}
use shamichan.Client.Connection.Events.{handle_close, dropped, unknown_key}

-- Messages that `p` tells are to be deferred, in order.
abbrev pub kept : (List ℕ → Bool) → List (List ℕ) → List (List ℕ)
kept p [] = []
kept p (m ∷ ms) = let rest = kept p ms in if p m then m ∷ rest else rest

pub kept-append :
    (p : List ℕ → Bool) (ms ns : List (List ℕ)) → kept p (ms ++ ns) ≡ kept p ms ++ kept p ns
kept-append p [] ns = refl
kept-append p (m ∷ ms) ns = elim (Bool-cases (p m)) [
  | inl h ↦ rw h (ap (λ r. m ∷ r) (kept-append p ms ns))
  | inr h ↦ rw h (kept-append p ms ns)
]

-- Nothing waits while the connection can send.
abbrev pub Flushed : State → Option ℕ → List (List ℕ) → Type 0
Flushed State.handshake_complete (some s) deferred = deferred ≡ []
Flushed state socket deferred = Unit

-- What was sent and what waits.
abbrev pub taken : Connection → List (List ℕ)
taken c = c.sent ++ c.deferred

-- The messages to be deferred that `c` took are `q`, and nothing waits while it can send.
pub record Holds (p : List ℕ → Bool) (q : List (List ℕ)) (c : Connection) : Type 0 where
  pub in_order : kept p (taken c) ≡ q
  pub flushed : Flushed c.state c.socket c.deferred

flushed_without : (s : State) (d : List (List ℕ)) → Flushed s none d
flushed_without State.loading d = tt
flushed_without State.connecting d = tt
flushed_without State.handshaking d = tt
flushed_without State.handshake_complete d = tt
flushed_without State.disconnected d = tt
flushed_without State.critical_error d = tt

unfoldable numbered : ℕ → State
numbered n =
    if n == 0
    then State.loading
    else if n == 1
    then State.connecting
    else if n == 2
    then State.handshaking
    else if n == 3
    then State.handshake_complete
    else if n == 4
    then State.disconnected
    else State.critical_error

numbered-state_number : (s : State) → numbered (state_number s) ≡ s
unfolding numbered
numbered-state_number State.loading = refl
numbered-state_number State.connecting = refl
numbered-state_number State.handshaking = refl
numbered-state_number State.handshake_complete = refl
numbered-state_number State.disconnected = refl
numbered-state_number State.critical_error = refl

state_eq→eq : (s t : State) → state_eq s t ≡ true → s ≡ t
state_eq→eq s t h =
    sym (numbered-state_number s)
    ∙ ap numbered (eqb→eq (state_number s) (state_number t) h)
    ∙ numbered-state_number t

-- Of a connection, a change of its state changes nothing else but what subscribers are told.
pub set_state-shape :
    (c : Connection) (s : State)
    → (r : List (ℕ × State)) × (set_state c s ≡ record c { state = s; responses = r })
unfolding set_state
set_state-shape c s = elim (Bool-cases (state_eq c.state s)) [
  | inl e ↦ (
    c.responses,
    rw e (ap (λ t. record c { state = t; responses = c.responses }) (state_eq→eq c.state s e)),
  )
  | inr e ↦ (c.responses ++ map {B = ℕ × State} (λ id. (id, s)) c.subscribers, rw e refl)
]

module _ (p : List ℕ → Bool) (q : List (List ℕ)) where
  pub Holds-set_state :
      (c : Connection) (s : State)
      → kept p (taken c) ≡ q
      → Flushed s c.socket c.deferred
      → Holds p q (set_state c s)
  Holds-set_state c s h k =
      let (r, e) = set_state-shape c s in
      subst (Holds p q) (sym e) (record { in_order = h; flushed = k })

  pub Holds-close_socket : (c : Connection) → Holds p q c → Holds p q (close_socket c)
  unfolding close_socket
  Holds-close_socket c h = record {
    in_order = h.in_order;
    flushed = flushed_without c.state c.deferred;
  }

  pub Holds-if :
      (b : Bool) (c d : Connection) → Holds p q c → Holds p q d → Holds p q (if b then c else d)
  Holds-if true c d h k = h
  Holds-if false c d h k = k

  pub Holds-opened :
      (env : Env) (c : Connection) (o : Option ℕ) → Holds p q c → Holds p q (opened env c o)
  Holds-opened env c none h = h
  Holds-opened env c (some s) h =
      let (r, e) = set_state-shape c State.connecting in
      subst (λ d. Holds p q (record d { socket = some s; reconn_timer = none })) (sym e)
        (record { in_order = h.in_order; flushed = tt })

  pub Holds-connect : (env : Env) (c : Connection) → Holds p q c → Holds p q (connect env c)
  unfolding connect
  Holds-connect env c h =
      let k = Holds-close_socket c h in
      Holds-if env.on_line (opened env (close_socket c) env.open_socket) (close_socket c)
        (Holds-opened env (close_socket c) env.open_socket k) k

  pub Holds-handle_disconnect : (c : Connection) → Holds p q c → Holds p q (handle_disconnect c)
  unfolding handle_disconnect
  Holds-handle_disconnect c h =
      let retried : Connection = record c {
        reconn_attempts = c.reconn_attempts + 1;
        reconn_timer = some (delay (c.reconn_attempts + 1));
      } in
      Holds-set_state retried State.disconnected h.in_order tt

  pub Holds-reset_socket_and_timer :
      (c : Connection) → Holds p q c → Holds p q (reset_socket_and_timer c)
  unfolding reset_socket_and_timer
  Holds-reset_socket_and_timer c h =
      let k = Holds-close_socket c h in record { in_order = k.in_order; flushed = k.flushed }

  pub Holds-dropped : (c : Connection) → Holds p q c → Holds p q (dropped c)
  Holds-dropped c h =
      Holds-handle_disconnect (reset_socket_and_timer c) (Holds-reset_socket_and_timer c h)

  pub Holds-request : (c : Connection) (r : Request) → Holds p q c → Holds p q (request c r)
  Holds-request c r h = record { in_order = h.in_order; flushed = h.flushed }

  pub Holds-handle_close :
      (c : Connection) (code : ℕ) (reason : List ℕ)
      → Holds p q c
      → Holds p q (handle_close c code reason)
  unfolding handle_close
  Holds-handle_close c code reason h =
      let forgot = request c (Request.set_key_id none) in
      let failed = set_state c State.critical_error in
      Holds-if (not (code == 1000) && not (is_empty reason))
        (if text_eq reason unknown_key then dropped forgot else failed) (dropped c)
        (Holds-if (text_eq reason unknown_key) (dropped forgot) failed
          (Holds-dropped forgot (Holds-request c (Request.set_key_id none) h))
          (Holds-set_state c State.critical_error h.in_order tt))
        (Holds-dropped c h)
