-- ===== src/Client/Connection.antt =====
-- The websocket connection of the client (client/src/connection.rs). A message is its bytes; `sent`
-- and the other logs record what the connection asks of the world, in order.
pub mod Received
pub mod Events
use shamichan.Prelude.{
  ℕ, ◌+◌, ◌/◌, ◌*◌, ◌^◌, List, [], ◌∷◌, ◌++◌, map, Option, none, some, Bool, true, false,
  if◌then◌else◌, ltb, ◌==◌, ◌&&◌, ◌||◌, not, min,
}
use shamichan.Prelude.Eq.{ℕ_eq}
use shamichan.Codec.MessageType.{MessageType}
use shamichan.Collections.HashSet
use shamichan.Collections.HashSet.{HashSet}
use shamichan.Client.State.{KeyPair}
use shamichan.Client.State.Requests.{Request, set_key_id}

pub data State : Type 0 where
  loading connecting handshaking handshake_complete disconnected critical_error : State

pub record Connection : Type 0 where
  pub state : State
  pub authed_with : Option ℕ
  pub reconn_attempts : ℕ
  -- the delay of the timer in milliseconds
  pub reconn_timer : Option ℕ
  -- the number of the socket
  pub socket : Option ℕ
  pub subscribers : HashSet ℕ
  pub deferred : List (List ℕ)
  -- the messages that sockets took
  pub sent : List (List ℕ)
  -- the sockets that were closed
  pub closed : List ℕ
  -- the answers to subscribers
  pub responses : List (ℕ × State)
  -- the requests to the state agent
  pub requests : List Request
  -- the key pairs that handshake requests are being made with
  pub handshakes : List KeyPair

-- The state of the browser and the app as an event meets it.
pub record Env : Type 0 where
  pub on_line : Bool
  -- `document.hidden`
  pub hidden : Bool
  -- the result of `WebSocket::new`
  pub open_socket : Option ℕ
  -- whether `send_with_u8_array` succeeds
  pub accepts : List ℕ → Bool
  -- the key pair of the app's state
  pub key_pair : KeyPair
  -- `util::now` and `Date::now`, in seconds
  pub now : ℕ

abbrev pub state_number : State → ℕ
state_number State.loading = 0
state_number State.connecting = 1
state_number State.handshaking = 2
state_number State.handshake_complete = 3
state_number State.disconnected = 4
state_number State.critical_error = 5

abbrev pub state_eq : State → State → Bool
state_eq s t = state_number s == state_number t

-- `set_state`
unfoldable pub set_state : Connection → State → Connection
set_state c new = if state_eq c.state new then c else record c {
  state = new;
  responses = c.responses ++ map {B = ℕ × State} (λ id. (id, new)) c.subscribers;
}

-- `500f32 * 1.5f32.powi(min(attempts / 2, 12))`, rounded down
unfoldable pub delay : ℕ → ℕ
delay attempts = let n = min (attempts / 2) 12 in 500 * 3 ^ n / 2 ^ n

-- `handle_disconnect`
unfoldable pub handle_disconnect : Connection → Connection
unfolding set_state delay
handle_disconnect c =
    set_state
      (record c {
        reconn_attempts = c.reconn_attempts + 1;
        reconn_timer = some (delay (c.reconn_attempts + 1));
      })
      State.disconnected

abbrev pub and_closed : List ℕ → Option ℕ → List ℕ
and_closed closed none = closed
and_closed closed (some s) = closed ++ s ∷ []

-- `close_socket`
unfoldable pub close_socket : Connection → Connection
close_socket c = record c {
  closed = and_closed c.closed c.socket;
  socket = none;
  authed_with = none;
}

-- `reset_reconn_attempts`
unfoldable pub reset_reconn_attempts : Connection → Connection
reset_reconn_attempts c = record c { reconn_timer = none; reconn_attempts = 0 }

-- `reset_socket_and_timer`
unfoldable pub reset_socket_and_timer : Connection → Connection
unfolding close_socket
reset_socket_and_timer c = record (close_socket c) { reconn_timer = none }

abbrev pub can_send : State → Bool → Bool
can_send State.connecting is_handshake = is_handshake
can_send State.handshaking is_handshake = is_handshake
can_send State.handshake_complete is_handshake = true
can_send state is_handshake = false

-- The connection after an attempt to send, and whether it succeeded.
abbrev pub Attempt : Type 0
Attempt = Connection × Bool

module _ (env : Env) where
  abbrev pub send_by : Connection → List ℕ → Bool → Bool → Option ℕ → Attempt
  send_by c msg true defer (some s) =
      if env.accepts msg then (record c { sent = c.sent ++ msg ∷ [] }, true) else (c, false)
  send_by c msg ready defer socket =
      (if defer then record c { deferred = c.deferred ++ msg ∷ [] } else c, true)

  -- `send`: its message, `is_handshake` and `defer`
  unfoldable pub send : Connection → List ℕ → Bool → Bool → Attempt
  send c msg is_handshake defer = send_by c msg (can_send c.state is_handshake) defer c.socket

  abbrev pub opened : Connection → Option ℕ → Connection
  opened c none = c
  opened c (some s) = record (set_state c State.connecting) { socket = some s; reconn_timer = none }

  -- `connect`
  unfoldable pub connect : Connection → Connection
  unfolding close_socket set_state
  connect c = let c' = close_socket c in if env.on_line then opened c' env.open_socket else c'
