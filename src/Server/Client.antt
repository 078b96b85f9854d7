-- ===== src/Server/Client.antt =====
-- The handler of a client's messages (server/src/client/message_handler.rs): its state, what it
-- relies on, and how its steps are joined.
pub mod Names
pub mod Joins
pub mod Handshake
pub mod Posts
pub mod Pending
pub mod Messages
use shamichan.Prelude.{ℕ, List, [], ◌∷◌, ◌++◌, Option, none, some, Bool, true, false, if◌then◌else◌}
use shamichan.Codec.MessageType.{MessageType}
use shamichan.Codec.Encoder.{Encoder}
use shamichan.Codec.Encoder
use shamichan.PostBody.Node.{Node, ℤ}
use shamichan.Payloads.{HandshakeRes, PostCreationOpts}
use shamichan.Feeds.Writer.{Payload, or_new}
use shamichan.Feeds.Thread.Handlers.{InsertPost}

pub record PubKeyDesc : Type 0 where
  pub priv_id : ℕ
  pub pub_id : ℕ

pub record OpenPost : Type 0 where
  pub thread : ℕ
  -- `loc`
  pub id : ℕ
  pub page : ℕ
  pub body : List ℕ
  pub feed : ℕ

-- `AnyFeed` (server/src/feeds/mod.rs)
pub data AnyFeed : Type 0 where
  index : AnyFeed
  thread : ℕ → AnyFeed

pub data ConnState : Type 0 where
  connected accepted_handshake : ConnState
  requested_reshake : List ℕ → ConnState
  -- id, feed
  synchronized : ℕ → AnyFeed → ConnState

-- What the handler sends to feeds.
pub data Effect : Type 0 where
  -- feed, page
  fetch_page : ℕ → ℤ → Effect
  used_tags : Effect
  -- feed, page, post, body
  set_body : ℕ → ℕ → ℕ → List ℕ → Effect
  insert_post : ℕ → InsertPost → Effect
  close_post : ℕ → ℕ → ℕ → Node → Effect
  -- post, thread, page
  cache_location : ℕ → ℕ → ℕ → Effect

-- What it sends to its client.
pub data Reply : Type 0 where
  handshake : HandshakeRes → Reply
  current_time insert_thread_ack insert_post_ack : ℕ → Reply
  configs : Reply

-- `sent` is what was sent to others, in its order.
pub record MessageHandler : Type 0 where
  pub conn_state : ConnState
  pub open_post : Option OpenPost
  pub pub_key : PubKeyDesc
  pub message : Option Encoder
  pub sent : List Effect

pub data Error : Type 0 where
  empty_message expected_handshake decode unhandled database registry : Error
  invalid_length duplicate_tags name_too_long open_post_exists no_post_open : Error
  patch_too_long patch_nop position_exceeds_length body_too_long : Error
  not_synchronized index_pages : Error
  version_mismatch invalid_signature crypto different_key invalid_authorization : Error

abbrev pub Outcome : Type 0
Outcome = MessageHandler × Option Error

-- A thread to be inserted: its subject and tags, and the name and the tripcode of its first post.
pub record ThreadInsertParams : Type 0 where
  pub subject : List ℕ
  pub tags : List (List ℕ)
  pub priv_id : ℕ
  pub opts : PostCreationOpts

-- The clock, the configuration, the database, the registry, the serializer and the libraries on
-- text and cryptography. `none` and `false` stand for an error.
pub record Env : Type 0 where
  pub now : ℕ
  pub enable_antispam : Bool
  pub payload : Reply → Payload
  pub is_whitespace : ℕ → Bool
  pub to_lowercase : List ℕ → List ℕ
  pub tripcode : List ℕ → List ℕ
  pub parse : List ℕ → Bool → Node
  -- private and public identifier, and whether the key is fresh
  pub register_public_key : List ℕ → Option (ℕ × ℕ × Bool)
  -- private identifier and key
  pub get_public_key : ℕ → Option (Option (ℕ × List ℕ))
  -- key, public identifier, nonce and signature
  pub verify : List ℕ → ℕ → List ℕ → List ℕ → Option Bool
  pub set_public_key : ℕ → Bool
  pub set_feed : ℕ → Option AnyFeed
  pub get_feed : ℕ → Option ℕ
  pub db_insert_thread : ThreadInsertParams → Option ℕ
  pub registry_insert_thread : ℕ → ThreadInsertParams → Option ℕ
  -- thread, sage, the key's private identifier: the post and its page
  pub db_insert_post : ℕ → Bool → ℕ → PostCreationOpts → Option (ℕ × ℕ)
  pub db_close_post : ℕ → Node → Bool
  -- of the n-th question: a random number, the counter of `#pyu`, and the place of a post
  pub random : ℕ → ℕ
  pub pcount : ℕ → Bool → Option ℕ
  pub post_location : ℕ → ℕ → Option (Option (ℕ × ℕ))

abbrev pub fail : MessageHandler → Error → Outcome
fail s e = (s, some e)

abbrev pub ok : MessageHandler → Outcome
ok s = (s, none)

-- The operator `?`
unfoldable pub and_then : Outcome → (MessageHandler → Outcome) → Outcome
and_then (s, some e) f = (s, some e)
and_then (s, none) f = f s

unfoldable pub ask : {A : Type 0} → Option A → Error → MessageHandler → (A → Outcome) → Outcome
ask none e s f = fail s e
ask (some a) e s f = f a

unfoldable pub assert : Bool → Error → MessageHandler → Outcome
assert true e s = ok s
assert false e s = fail s e

abbrev pub do_send : MessageHandler → Effect → MessageHandler
do_send s x = record s { sent = s.sent ++ x ∷ [] }

-- `MessageHandler::new`
unfoldable pub new : MessageHandler
new = record {
  conn_state = connected;
  open_post = none;
  pub_key = record { priv_id = 0; pub_id = 0 };
  message = none;
  sent = [];
}

-- `MessageHandler::send`
unfoldable pub send : Env → MessageHandler → MessageType → Reply → MessageHandler
send env s t r = record s {
  message = some (Encoder.write_message (or_new s.message) t (env.payload r));
}
