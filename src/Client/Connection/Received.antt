-- ===== src/Client/Connection/Received.antt =====
-- The messages that the connection receives, as the decoder gives them
-- (client/src/connection.rs: `on_message`).
use shamichan.Prelude.{
  ℕ, ◌+◌, ◌-◌, ◌%◌, ◌^◌, List, [], ◌∷◌, ◌++◌, Option, none, some, Bool, true, false, if◌then◌else◌,
  ltb,
}
use shamichan.PostBody.Node.{ℤ, pos, negsuc, Node, Patch}
use shamichan.Payloads.{
  Post, Thread, ThreadWithPosts, PostCreationNotification, ReplyCreationOpts, HandshakeRes,
  PubKeyStatus, new_post,
}
use shamichan.Client.Location.{FeedId, Location}
use shamichan.Client.State.{KeyPair}
use shamichan.Client.State.Requests.{Request, Flags}
use shamichan.Client.Connection.{Connection, State, Env, Attempt, set_state, send}

pub data Incoming : Type 0 where
  handshake : HandshakeRes → Incoming
  insert_thread_ack insert_post_ack : ℕ → Incoming
  insert_thread : ThreadWithPosts → Incoming
  insert_post : PostCreationNotification → Incoming
  patch_post_body : ℕ → Patch → Incoming
  close_post : ℕ → Node → Incoming
  page_start page_end thread_index_start thread_index_end : Incoming
  post : Post → Incoming
  thread_meta : Thread → Incoming
  thread_abbreviated : ThreadWithPosts → Incoming
  used_tags : List (List ℕ) → Incoming
  current_time configs : ℕ → Incoming
  -- a payload that does not decode, and a type that has no handler
  malformed unhandled : Incoming

-- Where the loops of `on_message` stand.
pub data Stream : Type 0 where
  outside : Stream
  in_page : List Post → Stream
  in_threads : List ThreadWithPosts → Stream

abbrev pub no_opts : ReplyCreationOpts
no_opts = record { sage = false; post_opts = record { name = none; trip = none; flag = none } }

abbrev pub request : Connection → Request → Connection
request c r = record c { requests = c.requests ++ r ∷ [] }

-- `(server_time as i64 - now) as i32`
unfoldable pub time_correction : ℕ → ℕ → ℤ
time_correction server_time now =
    let d = (server_time + 2 ^ 64 - now % 2 ^ 64) % 2 ^ 32 in
    if ltb d (2 ^ 31) then pos d else negsuc (2 ^ 32 - 1 - d)

-- `send_handshake_req`, which makes the message asynchronously
abbrev pub send_handshake_req : Connection → KeyPair → Connection
send_handshake_req c kp = record c { handshakes = c.handshakes ++ kp ∷ [] }

abbrev pub navigation : Flags
navigation = record {
  push_state = true;
  set_state = true;
  scroll_to_focused = true;
  no_trigger = false;
}

module _ (env : Env) where
  -- `ack_post_insertion`
  unfoldable pub ack_post_insertion : Connection → ℕ → Connection
  ack_post_insertion c id =
      request
        (request (request c (Request.set_mine id))
          (Request.register_post (new_post id id 0 env.now no_opts)))
        (Request.set_open_post_id (some id))

  abbrev pub unless_failed : Attempt → (Connection → Connection) → Connection
  unless_failed (c, true) rest = rest c
  unless_failed (c, false) rest = c

  -- The messages that are sent at last. What follows a message that the socket refuses is dropped.
  unfoldable pub send_all : List (List ℕ) → Connection → Connection
  unfolding send
  send_all [] c = c
  send_all (msg ∷ msgs) c = unless_failed (send env c msg false false) (send_all msgs)

  abbrev pub with_id : ℕ → KeyPair
  with_id id = record env.key_pair { id = some id }

  abbrev pub handle_status : Connection → ℕ → PubKeyStatus → Connection
  handle_status c id PubKeyStatus.accepted =
      let c' = set_state c State.handshake_complete in
      send_all c'.deferred (record c' { deferred = [] })
  handle_status c id PubKeyStatus.need_resend = send_handshake_req c (with_id id)
  handle_status c id PubKeyStatus.not_found =
      send_handshake_req (request c (Request.set_key_id none)) (with_id id)

  abbrev pub authenticated : Connection → ℕ → Option ℕ → Connection
  authenticated c id none =
      request (record c { authed_with = some id }) (Request.set_key_id (some id))
  authenticated c id (some key) = record c { authed_with = some id }

  -- The case of `Handshake`
  unfoldable pub handle_handshake : Connection → HandshakeRes → Connection
  unfolding set_state send_all
  handle_handshake c res = handle_status (authenticated c res.id env.key_pair.id) res.id res.status

  abbrev pub notified : PostCreationNotification → Post
  notified msg = new_post msg.id msg.thread msg.page msg.time msg.opts

  -- One turn of a loop: the connection, where the loops stand after it, and whether it succeeded.
  abbrev pub Turn : Type 0
  Turn = Connection × (Stream × Bool)

  abbrev pub go_on : Connection → Turn
  go_on c = (c, (outside, true))

  -- An error ends the loop
  abbrev pub give_up : Connection → Turn
  give_up c = (c, (outside, false))

  unfoldable pub receive : Stream → Connection → Incoming → Turn
  unfolding handle_handshake ack_post_insertion time_correction
  receive outside c (handshake res) = go_on (handle_handshake c res)
  receive outside c (insert_thread_ack id) =
      let loc : Location = record { feed = FeedId.thread id (pos 0); focus = none } in
      go_on (request (ack_post_insertion c id) (Request.navigate_to loc navigation))
  receive outside c (insert_post_ack id) = go_on (ack_post_insertion c id)
  receive outside c (insert_thread t) = go_on (request c (Request.register_thread t))
  receive outside c (insert_post msg) = go_on (request c (Request.register_post (notified msg)))
  receive outside c (patch_post_body id p) = go_on (request c (Request.patch_post_body id p))
  receive outside c (close_post id body) = go_on (request c (Request.close_post id body))
  receive outside c page_start = (c, (in_page [], true))
  receive outside c (thread_meta t) = go_on (request c (Request.register_thread_meta t))
  receive outside c thread_index_start = (c, (in_threads [], true))
  receive outside c (used_tags tags) = go_on (request c (Request.set_used_tags tags))
  receive outside c (current_time t) =
      go_on (request c (Request.set_time_correction (time_correction t env.now)))
  receive outside c (configs cs) = go_on (request c (Request.set_configs cs))
  receive outside c m = give_up c
  receive (in_page posts) c (post p) = (c, (in_page (posts ++ p ∷ []), true))
  receive (in_page posts) c page_end = go_on (request c (Request.register_page posts))
  receive (in_page posts) c m = give_up c
  receive (in_threads ts) c (thread_abbreviated t) = (c, (in_threads (ts ++ t ∷ []), true))
  receive (in_threads ts) c thread_index_end = go_on (request c (Request.register_threads ts))
  receive (in_threads ts) c m = give_up c

  -- The messages end well outside of a page or an index.
  abbrev pub is_outside : Stream → Bool
  is_outside outside = true
  is_outside stream = false

  abbrev pub receive_all : Stream → Connection → List Incoming → Attempt
  receive_all stream c [] = (c, is_outside stream)
  receive_all stream c (m ∷ ms) =
      let t = receive stream c m in
      elim t.1.1 [ true ↦ receive_all t.1.0 t.0 ms | false ↦ (t.0, false) ]

  -- `on_message`
  unfoldable pub on_message : Connection → List Incoming → Attempt
  unfolding receive
  on_message c ms = receive_all outside c ms
