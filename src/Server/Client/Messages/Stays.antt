-- ===== src/Server/Client/Messages/Stays.antt =====
-- An accepted client stays accepted, and what is sent for it stays bounded
-- (server/src/client/message_handler.rs).
use shamichan.Prelude.{
  ℕ, ◌≡◌, refl, List, Option, none, some, Bool, true, false, ◌&&◌, ltb, ◌==◌, length, arith,
  Bool-cases, inl, inr,
}
use shamichan.PostBody.Node.{Node, ℤ}
use shamichan.Payloads.{ThreadCreationReq, PostCreationReq}
use shamichan.PostBody.Text.{TextPatch}
use shamichan.Feeds.Index.{is_empty}
use shamichan.Server.Client.{
  Env, MessageHandler, OpenPost, ConnState, connected, accepted_handshake, requested_reshake,
  synchronized, PubKeyDesc, Effect, do_send, index, thread, send, ThreadInsertParams,
}
use shamichan.Server.Client.Joins.{Ends, and_then-Ends, ask-Ends, assert-Ends}
use shamichan.Server.Client.Posts.Bounded.{AllBounded, IsBounded, append-AllBounded}
use shamichan.Server.Client.Posts
use shamichan.Server.Client.Posts.{
  update_body, patch_body, push, pop, thread_inserted, create_thread, post_inserted, create_post,
  no_flag, Modified, body_set, update_open, splice, assert_no_open_post, feed_of, feed_at,
}
use shamichan.Server.Client.Pending
use shamichan.Server.Client.Pending.{close_open, close_with, finalize_pending}
use shamichan.Server.Client.Messages.{
  Received, synchronize_to, fetch_page, fetch_from, handle_message_after_handshake,
}

abbrev pub is_accepted : ConnState → Bool
is_accepted connected = false
is_accepted (requested_reshake key) = false
is_accepted accepted_handshake = true
is_accepted (synchronized id feed) = true

module _ (env : Env) (p : PubKeyDesc) where
  -- The client is accepted, under the same key, and what was sent is bounded.
  abbrev pub Stays : MessageHandler → Type 0
  Stays s = (is_accepted s.conn_state ≡ true) × (s.pub_key ≡ p) × AllBounded s.sent

  do_send-Stays : (s : MessageHandler) (x : Effect) → Stays s → IsBounded x → Stays (do_send s x)
  do_send-Stays s x h b = (h.0, h.1, append-AllBounded s.sent x h.2 b)

  thread_inserted-Stays :
      (s : MessageHandler) (params : ThreadInsertParams) (id : ℕ)
      → Stays s
      → Ends Stays (thread_inserted env s params id)
  unfolding send
  thread_inserted-Stays s params id h =
      let h' = do_send-Stays s (Effect.cache_location id id 0) h tt in
      ask-Ends _ _ _ _ h' λ feed. record { holds = h' }

  insert_thread-Stays :
      (s : MessageHandler) (req : ThreadCreationReq)
      → Stays s
      → Ends Stays (Posts.insert_thread env s req)
  unfolding Posts.insert_thread assert_no_open_post
  insert_thread-Stays s req h = and_then-Ends (assert-Ends _ _ _ h) λ s h.
      and_then-Ends (assert-Ends _ _ _ h) λ s h. and_then-Ends (assert-Ends _ _ _ h) λ s h.
        and_then-Ends (assert-Ends _ _ _ h) λ s h. and_then-Ends (assert-Ends _ _ _ h) λ s h.
          ask-Ends _ _ _ _ h λ names.
            and_then-Ends (assert-Ends _ _ _ h)
              λ s h. ask-Ends _ _ _ _ h λ id. thread_inserted-Stays s _ id h

  insert_post-Stays :
      (s : MessageHandler) (req : PostCreationReq)
      → Stays s
      → Ends Stays (Posts.insert_post env s req)
  unfolding Posts.insert_post assert_no_open_post send
  insert_post-Stays s req h = and_then-Ends (assert-Ends _ _ _ h) λ s h. ask-Ends _ _ _ _ h λ names.
      ask-Ends _ _ _ _ h λ post.
        let h' = do_send-Stays s (Effect.cache_location post.0 req.thread post.1) h tt in
        ask-Ends _ _ _ _ h' λ feed. record {
          holds =
              do_send-Stays (do_send s (Effect.cache_location post.0 req.thread post.1)) _ h' tt;
        }

  update_body-Stays :
      (s : MessageHandler) (modify : List ℕ → Modified)
      → Stays s
      → Ends Stays (update_body s modify)
  unfolding update_body
  update_body-Stays s modify h = opened s.open_post
    where
      set : (q : OpenPost) (r : Modified) → Ends Stays (body_set s q r)
      set q (body, some e) = record { holds = h }
      set q (body, none) = elim (Bool-cases (ltb 2000 (length body))) [
        | inl e ↦ rw e (record { holds = h })
        | inr e ↦ rw e (record {
          holds = do_send-Stays s (Effect.set_body q.feed q.page q.id body) h (ground arith);
        })
      ]

      opened : (o : Option OpenPost) → Ends Stays (update_open s modify o)
      opened none = record { holds = h }
      opened (some q) = set q (modify q.body)

  patch_body-Stays :
      (s : MessageHandler) (req : TextPatch) → Stays s → Ends Stays (patch_body s req)
  unfolding patch_body
  patch_body-Stays s req h = elim (Bool-cases (ltb 2000 (length req.insert))) [
    | inl e ↦ rw e (record { holds = h })
    | inr e ↦ rw e (elim (Bool-cases (is_empty req.insert && req.remove == 0)) [
      | inl i ↦ rw i (record { holds = h })
      | inr i ↦ rw i (update_body-Stays s (splice req) h)
    ])
  ]

  close_with-Stays :
      (s : MessageHandler) (q : OpenPost) (r : Node × ℕ)
      → Stays s
      → Ends Stays (close_with env s q r)
  close_with-Stays s q (body, n) h = elim (Bool-cases (env.db_close_post q.id body)) [
    | inl e ↦
        rw e (record { holds = do_send-Stays s (Effect.close_post q.feed q.page q.id body) h tt })
    | inr e ↦ rw e (record { holds = h })
  ]

  close_post-Stays : (s : MessageHandler) → Stays s → Ends Stays (Pending.close_post env s)
  unfolding Pending.close_post
  close_post-Stays s h = opened s.open_post
    where
      opened : (o : Option OpenPost) → Ends Stays (close_open env s o)
      opened none = record { holds = h }
      opened (some q) = ask-Ends _ _ _ _ h λ r. close_with-Stays _ q r h

  fetch_from-Stays :
      (s : MessageHandler) (n : ℤ) (c : ConnState) → Stays s → Ends Stays (fetch_from env s n c)
  fetch_from-Stays s n connected h = record { holds = h }
  fetch_from-Stays s n accepted_handshake h = record { holds = h }
  fetch_from-Stays s n (requested_reshake key) h = record { holds = h }
  fetch_from-Stays s n (synchronized id index) h = record { holds = h }
  fetch_from-Stays s n (synchronized id (thread f)) h = record {
    holds = do_send-Stays s (Effect.fetch_page f n) h tt;
  }

  pub handle_message_after_handshake-Stays :
      (s : MessageHandler) (m : Received)
      → Stays s
      → Ends Stays (handle_message_after_handshake env s m)
  unfolding handle_message_after_handshake synchronize_to fetch_page
  handle_message_after_handshake-Stays s (Received.insert_thread req) h =
      insert_thread-Stays s req h
  handle_message_after_handshake-Stays s (Received.synchronize feed) h =
      ask-Ends _ _ _ _ h λ f. record { holds = (refl, h.1, h.2) }
  handle_message_after_handshake-Stays s (Received.insert_post req) h = insert_post-Stays s req h
  handle_message_after_handshake-Stays s (Received.append ch) h = update_body-Stays s (push ch) h
  handle_message_after_handshake-Stays s Received.backspace h =
      update_body-Stays s (λ b. (pop b, none)) h
  handle_message_after_handshake-Stays s (Received.patch_post_body req) h = patch_body-Stays s req h
  handle_message_after_handshake-Stays s (Received.page n) h = fetch_from-Stays s n s.conn_state h
  handle_message_after_handshake-Stays s Received.used_tags h = record {
    holds = do_send-Stays s Effect.used_tags h tt;
  }
  handle_message_after_handshake-Stays s Received.close_post h = close_post-Stays s h
  handle_message_after_handshake-Stays s (Received.malformed t) h = record { holds = h }
  handle_message_after_handshake-Stays s (Received.handshake req) h = record { holds = h }
  handle_message_after_handshake-Stays s (Received.other t) h = record { holds = h }
