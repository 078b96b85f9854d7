-- ===== src/Server/Client/Handshake.antt =====
-- The handshake of a client (server/src/client/message_handler.rs).
pub mod Authentic
use shamichan.Prelude.{ℕ, List, Option, none, some, Bool, true, false, if◌then◌else◌, ◌==◌, length}
use shamichan.Codec.MessageType.{MessageType}
use shamichan.Payloads.{Authorization, new_pub_key, saved, HandshakeReq, PubKeyStatus, HandshakeRes}
use shamichan.Server.Client.{
  Env, MessageHandler, Outcome, Error, Reply, ConnState, PubKeyDesc, fail, ok, and_then, assert,
  send,
}
use shamichan.Server.Client.Names.{check_len}

-- `common::VERSION`
abbrev pub version : ℕ
version = 1

module _ (env : Env) where
  -- The answer to a handshake.
  abbrev pub respond : MessageHandler → ℕ → PubKeyStatus → MessageHandler
  respond s id status =
      send env s MessageType.handshake (Reply.handshake (record { id = id; status = status }))

  abbrev pub verified : MessageHandler → Option Bool → Outcome
  verified s none = fail s Error.crypto
  verified s (some false) = fail s Error.invalid_signature
  verified s (some true) = ok (record (respond s s.pub_key.pub_id PubKeyStatus.accepted) {
    conn_state = ConnState.accepted_handshake;
  })

  -- `handle_auth_saved`, of a nonce, a signature and a key
  unfoldable pub handle_auth_saved : MessageHandler → List ℕ → List ℕ → List ℕ → Outcome
  unfolding send
  handle_auth_saved s nonce signature pub_key =
      verified s (env.verify pub_key s.pub_key.pub_id nonce signature)

  abbrev pub with_key : MessageHandler → ℕ → ℕ → MessageHandler
  with_key s priv_id pub_id = record s { pub_key = record { priv_id = priv_id; pub_id = pub_id } }

  abbrev pub accept_fresh : MessageHandler → ℕ → Bool → Outcome
  accept_fresh s pub_id false = fail s Error.registry
  accept_fresh s pub_id true = ok (
      respond (record s { conn_state = ConnState.accepted_handshake }) pub_id PubKeyStatus.accepted)

  -- The key `pub_key` as the database has registered it.
  abbrev pub registered : MessageHandler → List ℕ → Option (ℕ × ℕ × Bool) → Outcome
  registered s pub_key none = fail s Error.database
  registered s pub_key (some (priv_id, pub_id, true)) =
      accept_fresh (with_key s priv_id pub_id) pub_id (env.set_public_key priv_id)
  registered s pub_key (some (priv_id, pub_id, false)) = ok (
      respond
        (record (with_key s priv_id pub_id) { conn_state = ConnState.requested_reshake pub_key })
        pub_id PubKeyStatus.need_resend)

  abbrev pub found : MessageHandler → ℕ → List ℕ → List ℕ → Option (Option (ℕ × List ℕ)) → Outcome
  found s pub_id nonce signature none = fail s Error.database
  found s pub_id nonce signature (some none) = ok (respond s pub_id PubKeyStatus.not_found)
  found s pub_id nonce signature (some (some (priv_id, pub_key))) =
      handle_auth_saved (with_key s priv_id pub_id) nonce signature pub_key

  abbrev pub authorize : MessageHandler → Authorization → Outcome
  authorize s (new_pub_key pub_key) =
      if check_len (length pub_key) 1024
      then registered s pub_key (env.register_public_key pub_key)
      else fail s Error.invalid_length
  authorize s (saved pub_id nonce signature) =
      found s pub_id nonce signature (env.get_public_key pub_id)

  -- `handle_handshake`, of a request that was decoded
  unfoldable pub handle_handshake : MessageHandler → HandshakeReq → Outcome
  unfolding send handle_auth_saved
  handle_handshake s req =
      if req.protocol_version == version
      then authorize s req.auth
      else fail s Error.version_mismatch

  abbrev pub reauthorize : MessageHandler → List ℕ → Authorization → Outcome
  reauthorize s pub_key (new_pub_key other) = fail s Error.invalid_authorization
  reauthorize s pub_key (saved pub_id nonce signature) =
      if pub_id == s.pub_key.pub_id
      then handle_auth_saved s nonce signature pub_key
      else fail s Error.different_key

  -- `handle_reshake`, of a request that was decoded and the key that is to be proved
  unfoldable pub handle_reshake : MessageHandler → HandshakeReq → List ℕ → Outcome
  unfolding handle_auth_saved
  handle_reshake s req pub_key =
      if req.protocol_version == version
      then reauthorize s pub_key req.auth
      else fail s Error.version_mismatch
