-- ===== src/Server/Client/Messages.antt =====
-- The messages of a client and their order (server/src/client/message_handler.rs).
pub mod Stays
pub mod Guarded
use shamichan.Prelude.{ℕ, List, [], ◌∷◌, Option, none, some, Bool, true, false, if◌then◌else◌, ◌==◌}
use shamichan.Codec.MessageType.{MessageType, to_u8}
use shamichan.Codec.Encoder.{Encoder, finish}
use shamichan.PostBody.Node.{ℤ}
use shamichan.PostBody.Text.{TextPatch}
use shamichan.Payloads.{HandshakeReq, ThreadCreationReq, PostCreationReq}
use shamichan.Server.Client.{
  Env, MessageHandler, Outcome, Error, Reply, ConnState, AnyFeed, Effect, fail, ok, and_then, ask,
  do_send, send,
}
use shamichan.Server.Client.Handshake.{handle_handshake, handle_reshake}
use shamichan.Server.Client.Posts
use shamichan.Server.Client.Posts.{update_body, patch_body, push, pop}
use shamichan.Server.Client.Pending

-- A message as the decoder gives it: its type, and its payload where that is read and decodes.
pub data Received : Type 0 where
  handshake : HandshakeReq → Received
  insert_thread : ThreadCreationReq → Received
  insert_post : PostCreationReq → Received
  synchronize append : ℕ → Received
  patch_post_body : TextPatch → Received
  page : ℤ → Received
  backspace used_tags close_post : Received
  -- of a type with a payload, which does not decode
  malformed : MessageType → Received
  -- of another type
  other : MessageType → Received

abbrev pub is_handshake : Received → Bool
is_handshake (handshake req) = true
is_handshake (malformed t) = to_u8 t == to_u8 MessageType.handshake
is_handshake m = false

module _ (env : Env) where
  abbrev pub synchronized_to : MessageHandler → ℕ → AnyFeed → Outcome
  synchronized_to s id feed = ok (record s { conn_state = ConnState.synchronized id feed })

  -- `synchronize`
  unfoldable pub synchronize_to : MessageHandler → ℕ → Outcome
  synchronize_to s feed = ask (env.set_feed feed) Error.registry s (synchronized_to s feed)

  abbrev pub fetch_from : MessageHandler → ℤ → ConnState → Outcome
  fetch_from s n (ConnState.synchronized id AnyFeed.index) = fail s Error.index_pages
  fetch_from s n (ConnState.synchronized id (AnyFeed.thread f)) =
      ok (do_send s (Effect.fetch_page f n))
  fetch_from s n state = fail s Error.not_synchronized

  -- `fetch_page`
  unfoldable pub fetch_page : MessageHandler → ℤ → Outcome
  fetch_page s n = fetch_from s n s.conn_state

  -- `handle_message_after_handshake`
  unfoldable pub handle_message_after_handshake : MessageHandler → Received → Outcome
  unfolding Posts.insert_thread Posts.insert_post update_body patch_body Pending.close_post
      synchronize_to fetch_page
  handle_message_after_handshake s (insert_thread req) = Posts.insert_thread env s req
  handle_message_after_handshake s (synchronize feed) = synchronize_to s feed
  handle_message_after_handshake s (insert_post req) = Posts.insert_post env s req
  handle_message_after_handshake s (append ch) = update_body s (push ch)
  handle_message_after_handshake s backspace = update_body s (λ b. (pop b, none))
  handle_message_after_handshake s (patch_post_body req) = patch_body s req
  handle_message_after_handshake s (page n) = fetch_page s n
  handle_message_after_handshake s used_tags = ok (do_send s Effect.used_tags)
  handle_message_after_handshake s close_post = Pending.close_post env s
  handle_message_after_handshake s (malformed t) = fail s Error.decode
  handle_message_after_handshake s (handshake req) = fail s Error.unhandled
  handle_message_after_handshake s (other t) = fail s Error.unhandled

  abbrev pub greet : MessageHandler → Outcome
  greet s = ok (
      send env (send env s MessageType.current_time (Reply.current_time env.now))
        MessageType.configs Reply.configs)

  abbrev pub first_handshake : MessageHandler → Received → Outcome
  first_handshake s (handshake req) = and_then (handle_handshake env s req) greet
  first_handshake s m = fail s (if is_handshake m then Error.decode else Error.expected_handshake)

  abbrev pub next_handshake : MessageHandler → List ℕ → Received → Outcome
  next_handshake s key (handshake req) = handle_reshake env s req key
  next_handshake s key m =
      fail s (if is_handshake m then Error.decode else Error.expected_handshake)

  abbrev pub handle_in : ConnState → MessageHandler → Received → Outcome
  handle_in ConnState.connected s m = first_handshake s m
  handle_in (ConnState.requested_reshake key) s m = next_handshake s key m
  handle_in state s m = handle_message_after_handshake s m

  -- One message of the loop of `handle_messages`.
  unfoldable pub handle_message : MessageHandler → Received → Outcome
  unfolding handle_message_after_handshake handle_handshake handle_reshake send
  handle_message s m = handle_in s.conn_state s m

  abbrev pub handle_rest : MessageHandler → List Received → Outcome
  handle_rest s [] = ok s
  handle_rest s (m ∷ ms) =
      let r = handle_message s m in elim r.1 [ some e ↦ r | none ↦ handle_rest r.0 ms ]

  -- `handle_messages`
  unfoldable pub handle_messages : MessageHandler → List Received → Outcome
  unfolding handle_message
  handle_messages s [] = fail s Error.empty_message
  handle_messages s (m ∷ ms) = handle_rest s (m ∷ ms)

  module _ (deflate : List ℕ → List ℕ) where
    -- `MessageResult`
    pub data MessageResult : Type 0 where
      message : List ℕ → MessageResult
      failure : Error → MessageResult

    abbrev pub taken : MessageHandler → Option Encoder → MessageHandler × Option MessageResult
    taken s none = (s, none)
    taken s (some e) = (record s { message = none }, some (message (finish deflate e)))

    abbrev pub result_of : Outcome → MessageHandler × Option MessageResult
    result_of (s, some e) = (s, some (failure e))
    result_of (s, none) = taken s s.message

    -- `Handler<HandleMessage>`: what the client is sent, if anything.
    unfoldable pub handle : MessageHandler → List Received → MessageHandler × Option MessageResult
    unfolding handle_messages
    handle s ms = result_of (handle_messages s ms)
