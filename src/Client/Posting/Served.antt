-- ===== src/Client/Posting/Served.antt =====
-- The edits of the post form's agent in the hands of the server's message handler
-- (client/src/post/posting.rs and server/src/client/message_handler.rs).
use shamichan.Prelude.{
  ℕ, ◌+◌, ◌≡◌, ◌≢◌, ◌≤◌, refl, ap, sym, subst, ◌∙◌, List, [], ◌∷◌, ◌++◌, map, append_assoc,
  append-nil, Option, none, some, true, false, ◌==◌, ◌&&◌, ltb, length, arith, Bool-cases, inl, inr,
  ◌⊎◌,
}
use shamichan.PostBody.Text.{TextPatch}
use shamichan.PostBody.Text
use shamichan.Feeds.Index.{is_empty}
use shamichan.Server.Client.{
  Env, MessageHandler, OpenPost, ConnState, AnyFeed, Effect, Outcome, ok, do_send,
}
use shamichan.Server.Client.Messages.{
  Received, handle_message, handle_message_after_handshake, handle_in, handle_rest,
}
use shamichan.Server.Client.Posts.{
  push, pop, update_body, update_open, body_set, patch_body, Modified,
}
use shamichan.Server.Client.Posts.Edited.{patch_body-new, is_empty_lem}
use shamichan.Client.Location.{text_eq}
use shamichan.Client.State as App
use shamichan.Client.Posting.{
  State, Sent, Agent, is_allocated, send, alloc_in, try_alloc, change, by_append, init, last,
  commit_in, commit_text,
}
use shamichan.Client.Posting.Change.{remote, remote-change, text_eq→eq, text_eq_refl}

-- A message as the server decodes it.
abbrev pub received : Sent → Received
received (Sent.insert_post req) = Received.insert_post req
received (Sent.append c) = Received.append c
received Sent.backspace = Received.backspace
received (Sent.patch_post_body p) = Received.patch_post_body p
received Sent.close_post = Received.close_post

-- A message that edits the open post; a patch is the one between the two texts.
abbrev pub IsEdit : List ℕ → List ℕ → Sent → Type 0
IsEdit old text (Sent.append c) = Unit
IsEdit old text Sent.backspace = Unit
IsEdit old text (Sent.patch_post_body p) = p ≡ Text.new old text
IsEdit old text m = ⊥

by_append-IsEdit : (o : Option ℕ) (old text : List ℕ) → IsEdit old text (by_append o old text)
by_append-IsEdit none old text = refl
by_append-IsEdit (some c) old text = tt

pub change-IsEdit : (old text : List ℕ) → IsEdit old text (change old text)
unfolding change
change-IsEdit old text =
    elim (Bool-cases (length text == length old + 1 && text_eq (init text) old)) [
      | inl e ↦ rw e (by_append-IsEdit (last text) old text)
      | inr e ↦ elim (Bool-cases (length old == length text + 1 && text_eq (init old) text)) [
        | inl f ↦ rw e (rw f tt)
        | inr f ↦ rw e (rw f refl)
      ]
    ]

abbrev pub edited : MessageHandler → OpenPost → List ℕ → MessageHandler
edited s p text =
    do_send (record s { open_post = some (record p { body = text }) })
      (Effect.set_body p.feed p.page p.id text)

body_set_lem :
    (s : MessageHandler) (p : OpenPost) (modify : List ℕ → Modified) (text : List ℕ)
    → s.open_post ≡ some p
    → modify p.body ≡ (text, none)
    → length text ≤ 2000
    → update_body s modify ≡ ok (edited s p text)
unfolding update_body
body_set_lem s p modify text e m h =
    let b : ltb 2000 (length text) ≡ false = ground arith in
    ap (update_open s modify) e ∙ ap (body_set s p) m ∙ rw b refl

module _ (env : Env) where
  edit_lem :
      (s : MessageHandler) (p : OpenPost) (text : List ℕ) (m : Sent)
      → s.open_post ≡ some p
      → length p.body ≤ 2000
      → length text ≤ 2000
      → p.body ≢ text
      → IsEdit p.body text m
      → remote p.body m ≡ text
      → handle_message_after_handshake env s (received m) ≡ ok (edited s p text)
  unfolding handle_message_after_handshake
  edit_lem s p text (Sent.append c) e h k ne i r =
      body_set_lem s p (push c) text e (ap (λ t. (t, none)) r) k
  edit_lem s p text Sent.backspace e h k ne i r =
      body_set_lem s p (λ b. (pop b, none)) text e (ap (λ t. (t, none)) r) k
  edit_lem s p text (Sent.patch_post_body q) e h k ne i r =
      ap (patch_body s) i ∙ patch_body-new s p text e h k ne
  edit_lem s p text (Sent.insert_post req) e h k ne i r = absurd i
  edit_lem s p text Sent.close_post e h k ne i r = absurd i

  handled :
      (s : MessageHandler) (p : OpenPost) (id : ℕ) (feed : AnyFeed) (text : List ℕ)
      → s.conn_state ≡ ConnState.synchronized id feed
      → s.open_post ≡ some p
      → length p.body ≤ 2000
      → length text ≤ 2000
      → p.body ≢ text
      → handle_message env s (received (change p.body text)) ≡ ok (edited s p text)
  unfolding handle_message
  handled s p id feed text c e h k ne =
      ap (λ st. handle_in env st s (received (change p.body text))) c
      ∙ edit_lem s p text (change p.body text) e h k ne (change-IsEdit p.body text)
          (remote-change p.body text (omega arith))

alloc_in_allocated :
    (app : App.State) (a : Agent) (s : State) → is_allocated s ≡ true → alloc_in app a s ≡ a
alloc_in_allocated app a (State.allocated post) h = refl
alloc_in_allocated app a s h = absurd (ground arith)

module _ (app : App.State) where
  abbrev changed : Agent → List ℕ → Agent
  changed a text = record (send a (change a.post_body text)) { post_body = text }

  -- A text either is the one that the agent holds or makes it send a change.
  commit_in-cases :
      (a : Agent) (text : List ℕ)
      → is_allocated a.state ≡ true
      → ((a.post_body ≡ text) × (commit_in app a text ≡ a))
        ⊎ ((a.post_body ≢ text) × (commit_in app a text ≡ changed a text))
  commit_in-cases a text on = elim (Bool-cases (text_eq text a.post_body)) [
    | inl e ↦ inl (sym (text_eq→eq text a.post_body e), rw on (rw e refl))
    | inr e ↦ inr (
      (λ h.
          let f : text_eq text a.post_body ≡ true =
            ap (λ t. text_eq text t) h ∙ text_eq_refl text in
          absurd (ground arith)),
      rw on (rw e refl),
    )
  ]

  commit_text-cases :
      (a : Agent) (text : List ℕ)
      → is_allocated a.state ≡ true
      → ((a.post_body ≡ text) × (commit_text app a text ≡ a))
        ⊎ ((a.post_body ≢ text) × (commit_text app a text ≡ changed a text))
  unfolding commit_text try_alloc
  commit_text-cases a text on =
      let same : try_alloc app a ≡ a = alloc_in_allocated app a a.state on in
      elim (Bool-cases (is_empty text && is_empty a.post_body)) [
        | inl e ↦
            let t : text ≡ [] = is_empty_lem text (ground arith) in
            let b : a.post_body ≡ [] = is_empty_lem a.post_body (ground arith) in
            inl (b ∙ sym t, rw e refl)
        | inr e ↦
            let f : commit_text app a text ≡ commit_in app a text =
              rw e (ap (λ b. commit_in app b text) same) in
            elim (commit_in-cases a text on) [
              | inl (g, h) ↦ inl (g, f ∙ h)
              | inr (g, h) ↦ inr (g, f ∙ h)
            ]
      ]

  -- The texts of the form, one after the other.
  abbrev pub typed : Agent → List (List ℕ) → Agent
  typed a [] = a
  typed a (text ∷ texts) = typed (commit_text app a text) texts

  abbrev pub AllFit : List (List ℕ) → Type 0
  AllFit [] = Unit
  AllFit (text ∷ texts) = (length text ≤ 2000) × AllFit texts

  module _ (env : Env) (id : ℕ) (feed : AnyFeed) (q : OpenPost) where
    -- The messages of an agent that was `a` lead the server from `s` without an error to the agent's
    -- body.
    abbrev pub Followed : MessageHandler → Agent → Agent → Type 0
    Followed s a b =
        (ms : List Sent) × (s' : MessageHandler) × (b.sent ≡ a.sent ++ ms)
        × (handle_rest env s (map received ms) ≡ ok s')
        × (s'.open_post ≡ some (record q { body = b.post_body }))

    follow :
        (s : MessageHandler) (a b : Agent) (text : List ℕ)
        → s.conn_state ≡ ConnState.synchronized id feed
        → s.open_post ≡ some (record q { body = a.post_body })
        → length a.post_body ≤ 2000
        → length text ≤ 2000
        → a.post_body ≢ text
        → Followed (edited s (record q { body = a.post_body }) text) (changed a text) b
        → Followed s a b
    follow s a b text c e h k ne (ms, s', x, y, z) =
        let m = change a.post_body text in
        let d = handled env s (record q { body = a.post_body }) id feed text c e h k ne in
        (
          m ∷ ms,
          s',
          x ∙ append_assoc a.sent (m ∷ []) ms,
          ap
                (λ r. elim r.1 as (λ o. Outcome) [
                  | some er ↦ r
                  | none ↦ handle_rest env r.0 (map received ms)
                ])
                d
              ∙ y,
          z,
        )

    -- An agent with an allocated post, and the server's handler of the client, synchronized and with
    -- the agent's body in its open post: whatever texts are typed, none of them above 2000
    -- characters, the handler takes all the messages that the agent sends without an error, and its
    -- open post then has the agent's body.
    pub handle_rest-typed :
        (texts : List (List ℕ)) (s : MessageHandler) (a : Agent)
        → is_allocated a.state ≡ true
        → s.conn_state ≡ ConnState.synchronized id feed
        → s.open_post ≡ some (record q { body = a.post_body })
        → length a.post_body ≤ 2000
        → AllFit texts
        → Followed s a (typed a texts)
    handle_rest-typed [] s a on c e h k = ([], s, sym (append-nil a.sent), refl, e)
    handle_rest-typed (text ∷ texts) s a on c e h (k, ks) = elim (commit_text-cases a text on) [
      | inl (f, g) ↦
          subst (λ b. Followed s a (typed b texts)) (sym g)
            (handle_rest-typed texts s a on c e h ks)
      | inr (f, g) ↦
          subst (λ b. Followed s a (typed b texts)) (sym g)
            (follow s a (typed (changed a text) texts) text c e h k f (
              handle_rest-typed texts (edited s (record q { body = a.post_body }) text)
                (changed a text) on c refl k ks))
    ]
