-- ===== src/Server/Client/Posts.antt =====
-- The creation and the editing of a client's post (server/src/client/message_handler.rs).
pub mod Bounded
pub mod Edited
use shamichan.Prelude.{
  ℕ, List, [], ◌∷◌, ◌++◌, reverse, Option, none, some, Bool, true, false, if◌then◌else◌, ltb, leb,
  ◌==◌, ◌&&◌, length,
}
use shamichan.Codec.MessageType.{MessageType}
use shamichan.PostBody.Text.{TextPatch}
use shamichan.PostBody.Text
use shamichan.Payloads.{ThreadCreationReq, PostCreationReq, PostCreationOpts}
use shamichan.Feeds.Index.{is_empty}
use shamichan.Feeds.Thread.Handlers.{InsertPost}
use shamichan.Server.Client.{
  Env, MessageHandler, OpenPost, Outcome, Error, Reply, ConnState, AnyFeed, Effect,
  ThreadInsertParams, fail, ok, and_then, ask, assert, do_send, send,
}
use shamichan.Server.Client.Names.{
  trim, parse_name, check_len, clean_tags, check_tags, are_distinct, sort, check_captcha,
}

abbrev pub no_flag : Option (List ℕ) × Option (List ℕ) → PostCreationOpts
no_flag (name, trip) = record { name = name; trip = trip; flag = none }

abbrev pub is_none : {A : Type 0} → Option A → Bool
is_none none = true
is_none (some x) = false

-- `assert_no_open_post`
unfoldable pub assert_no_open_post : MessageHandler → Outcome
assert_no_open_post s = assert (is_none s.open_post) Error.open_post_exists s

abbrev pub open_at : MessageHandler → ℕ → ℕ → ℕ → ℕ → MessageHandler
open_at s thread id page feed = record s {
  open_post = some (record { thread = thread; id = id; page = page; body = []; feed = feed });
}

module _ (env : Env) where
  abbrev pub thread_inserted : MessageHandler → ThreadInsertParams → ℕ → Outcome
  thread_inserted s params id =
      let s' = do_send s (Effect.cache_location id id 0) in
      ask (env.registry_insert_thread id params) Error.registry s' (λ feed. ok (
        open_at (send env s' MessageType.insert_thread_ack (Reply.insert_thread_ack id)) id id 0
          feed))

  abbrev pub create_thread :
      MessageHandler → List ℕ → List (List ℕ) → List ℕ → Option (List ℕ) × Option (List ℕ) → Outcome
  create_thread s subject tags captcha names =
      let params : ThreadInsertParams = record {
        subject = subject;
        tags = sort tags;
        priv_id = s.pub_key.priv_id;
        opts = no_flag names;
      } in
      and_then (assert (check_captcha env captcha) Error.invalid_length s)
        (λ s. ask (env.db_insert_thread params) Error.database s (thread_inserted s params))

  -- `insert_thread`
  unfoldable pub insert_thread : MessageHandler → ThreadCreationReq → Outcome
  unfolding assert_no_open_post trim parse_name check_captcha send
  insert_thread s req =
      let subject = trim env req.subject in
      let tags = clean_tags env req.tags in
      and_then (assert_no_open_post s) (λ s.
        and_then (assert (check_len (length subject) 100) Error.invalid_length s) (λ s.
          and_then (assert (check_len (length req.tags) 3) Error.invalid_length s) (λ s.
            and_then (assert (check_tags env tags) Error.invalid_length s) (λ s.
              and_then (assert (are_distinct tags) Error.duplicate_tags s) (λ s.
                ask (parse_name env req.name) Error.name_too_long s
                  (create_thread s subject tags req.captcha_solution))))))

  -- The feed of the thread, where the client is synchronized to it.
  abbrev pub feed_at : ℕ → ConnState → Option ℕ
  feed_at thread (ConnState.synchronized id (AnyFeed.thread f)) =
      if id == thread then some f else none
  feed_at thread state = none

  abbrev pub feed_of : ℕ → Option ℕ → Option ℕ
  feed_of thread (some f) = some f
  feed_of thread none = env.get_feed thread

  abbrev pub post_inserted : MessageHandler → PostCreationReq → PostCreationOpts → ℕ × ℕ → Outcome
  post_inserted s req opts (id, page) =
      let s' = do_send s (Effect.cache_location id req.thread page) in
      ask (feed_of req.thread (feed_at req.thread s.conn_state)) Error.registry s' (λ feed.
        let acked = send env s' MessageType.insert_post_ack (Reply.insert_post_ack id) in
        let post : InsertPost = record {
          id = id;
          thread = req.thread;
          page = page;
          opts = record { sage = req.sage; post_opts = opts };
        } in
        ok (open_at (do_send acked (Effect.insert_post feed post)) req.thread id page feed))

  abbrev pub create_post :
      MessageHandler → PostCreationReq → Option (List ℕ) × Option (List ℕ) → Outcome
  create_post s req names =
      ask (env.db_insert_post req.thread req.sage s.pub_key.priv_id (no_flag names)) Error.database
        s (post_inserted s req (no_flag names))

  -- `insert_post`
  unfoldable pub insert_post : MessageHandler → PostCreationReq → Outcome
  unfolding assert_no_open_post parse_name send
  insert_post s req =
      and_then (assert_no_open_post s)
        (λ s. ask (parse_name env req.name) Error.name_too_long s (create_post s req))

-- A body after a modification, and the error that the modification met.
abbrev pub Modified : Type 0
Modified = List ℕ × Option Error

abbrev pub body_set : MessageHandler → OpenPost → Modified → Outcome
body_set s p (body, some e) = fail (record s { open_post = some (record p { body = body }) }) e
body_set s p (body, none) =
    let s' : MessageHandler = record s { open_post = some (record p { body = body }) } in
    if ltb 2000 (length body)
    then fail s' Error.body_too_long
    else ok (do_send s' (Effect.set_body p.feed p.page p.id body))

abbrev pub update_open : MessageHandler → (List ℕ → Modified) → Option OpenPost → Outcome
update_open s modify none = fail s Error.no_post_open
update_open s modify (some p) = body_set s p (modify p.body)

-- `update_body`
unfoldable pub update_body : MessageHandler → (List ℕ → Modified) → Outcome
update_body s modify = update_open s modify s.open_post

-- `b.push(ch)`
abbrev pub push : ℕ → List ℕ → Modified
push ch b = (b ++ ch ∷ [], none)

-- `b.pop()`
abbrev pub pop : List ℕ → List ℕ
pop [] = []
pop (c ∷ []) = []
pop (c ∷ d ∷ b) = c ∷ pop (d ∷ b)

-- The modification that `patch_body` makes.
unfoldable pub splice : TextPatch → List ℕ → Modified
unfolding Text.apply
splice req b =
    if ltb (length b) req.position
    then (b, some Error.position_exceeds_length)
    else let new = Text.apply req [] b in
      (new, if ltb 2000 (length new) then some Error.body_too_long else none)

-- `patch_body`
unfoldable pub patch_body : MessageHandler → TextPatch → Outcome
unfolding update_body splice
patch_body s req =
    if ltb 2000 (length req.insert)
    then fail s Error.patch_too_long
    else if is_empty req.insert && req.remove == 0
    then fail s Error.patch_nop
    else update_body s (splice req)
