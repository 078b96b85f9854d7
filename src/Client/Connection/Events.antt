-- ===== src/Client/Connection/Events.antt =====
-- The events and the inputs of the connection (client/src/connection.rs: `create`, `update`,
-- `connected`, `disconnected` and `handle_input`).
pub mod Deferred
pub mod Flushing
pub mod InOrder
use shamichan.Prelude.{
  ℕ, List, [], ◌∷◌, ◌++◌, Option, none, some, Bool, true, false, if◌then◌else◌, ◌==◌, ◌&&◌, ◌||◌,
  not, ◌≡◌, refl,
}
use shamichan.Prelude.Eq.{Eq, ℕ_eq}
use shamichan.Collections.HashSet
use shamichan.Feeds.Index.{is_empty}
use shamichan.Client.Location.{text_eq}
use shamichan.Client.State.{KeyPair}
use shamichan.Client.State.Requests.{Request}
use shamichan.Client.Connection.{
  Connection, State, Env, Attempt, state_eq, set_state, handle_disconnect, reset_reconn_attempts,
  reset_socket_and_timer, send, connect,
}
use shamichan.Client.Connection.Received.{Incoming, on_message, request, send_handshake_req}

pub data Event : Type 0 where
  opened : Event
  -- the close code and the reason
  close : ℕ → List ℕ → Event
  error : Event
  receive : List Incoming → Event
  try_reconnecting visibility_changed went_online went_offline key_pair_changed : Event

pub data Input : Type 0 where
  -- `is_open_post_manipulation` and the message
  message : Bool → List ℕ → Input
  handshake : KeyPair → List ℕ → Input

abbrev id_eq : Option ℕ → Option ℕ → Bool
id_eq none none = true
id_eq none (some b) = false
id_eq (some a) none = false
id_eq (some a) (some b) = a == b

abbrev pub key_eq : KeyPair → KeyPair → Bool
key_eq a b =
    text_eq a.private_key b.private_key && (text_eq a.public_key b.public_key && id_eq a.id b.id)

-- "unknown public key ID"
abbrev pub unknown_key : List ℕ
unknown_key =
    117 ∷ 110 ∷ 107 ∷ 110 ∷ 111 ∷ 119 ∷ 110 ∷ 32 ∷ 112 ∷ 117 ∷ 98 ∷ 108 ∷ 105 ∷ 99 ∷ 32 ∷ 107 ∷ 101
    ∷ 121 ∷ 32 ∷ 73 ∷ 68 ∷ []

abbrev pub dropped : Connection → Connection
dropped c = handle_disconnect (reset_socket_and_timer c)

-- The case of `Close`
unfoldable pub handle_close : Connection → ℕ → List ℕ → Connection
unfolding set_state handle_disconnect reset_socket_and_timer
handle_close c code reason =
    if not (code == 1000) && not (is_empty reason)
    then if text_eq reason unknown_key
      then dropped (request c (Request.set_key_id none))
      else set_state c State.critical_error
    else dropped c

-- Whether the key in use is another than the one that the connection authenticated with.
abbrev pub is_other_key : Option ℕ → Option ℕ → Bool
is_other_key (some new) (some old) = not (new == old)
is_other_key new old = false

module _ (env : Env) where
  -- `update`
  unfoldable pub update : Connection → Event → Connection
  unfolding reset_reconn_attempts reset_socket_and_timer set_state handle_disconnect connect
      on_message handle_close
  update c opened = send_handshake_req (reset_reconn_attempts c) env.key_pair
  update c key_pair_changed =
      if is_other_key env.key_pair.id c.authed_with then connect env c else c
  update c (close code reason) = handle_close c code reason
  update c error = set_state (reset_socket_and_timer c) State.disconnected
  update c try_reconnecting = if state_eq c.state State.disconnected then connect env c else c
  update c (receive ms) = (on_message env c ms).0
  update c visibility_changed =
      if (env.hidden || not env.on_line) && not (state_eq c.state State.handshake_complete)
      then connect env c
      else c
  update c went_online = connect env c
  update c went_offline = handle_disconnect c

  abbrev pub handshaken : Attempt → Connection
  handshaken (c, true) = set_state c State.handshaking
  handshaken (c, false) = c

  -- `handle_input`
  unfoldable pub handle_input : Connection → Input → Connection
  unfolding send set_state
  handle_input c (Input.message is_open_post_manipulation msg) =
      (send env c msg false (not is_open_post_manipulation)).0
  handle_input c (Input.handshake kp msg) =
      if key_eq env.key_pair kp then handshaken (send env c msg true false) else c

-- `connected`
unfoldable pub connected : Connection → ℕ → Connection
connected c id = record c {
  subscribers = HashSet.insert c.subscribers id;
  responses = c.responses ++ (id, c.state) ∷ [];
}

-- `disconnected`
unfoldable pub disconnected : Connection → ℕ → Connection
disconnected c id = record c { subscribers = HashSet.remove c.subscribers id }

-- The connection that `create` makes before it connects.
abbrev pub initial : Connection
initial = record {
  state = State.loading;
  authed_with = none;
  reconn_attempts = 0;
  reconn_timer = none;
  socket = none;
  subscribers = [];
  deferred = [];
  sent = [];
  closed = [];
  responses = [];
  requests = [];
  handshakes = [];
}

-- `create`
unfoldable pub create : Env → Connection
unfolding connect
create env = connect env initial

-- One turn of the agent, in the environment that it meets.
pub data Step : Type 0 where
  event : Env → Event → Step
  input : Env → Input → Step
  join leave : ℕ → Step

unfoldable pub step : Connection → Step → Connection
unfolding update handle_input connected disconnected
step c (event env e) = update env c e
step c (input env i) = handle_input env c i
step c (join id) = connected c id
step c (leave id) = disconnected c id

abbrev pub run : Connection → List Step → Connection
run c [] = c
run c (s ∷ ss) = run (step c s) ss
