-- ===== src/Client/Posting/Mirrored/Run.antt =====
-- Every turn of the post form's agent keeps its body and its messages together
-- (client/src/post/posting.rs).
use shamichan.Prelude.{
  ℕ, ◌≡◌, ◌≤◌, refl, ap, sym, subst, ◌∙◌, List, [], ◌∷◌, ◌++◌, Option, none, some, true, length,
  arith,
}
use shamichan.Collections.HashMap.{HashMap}
use shamichan.Client.State as App
use shamichan.Client.Connection as Connection
use shamichan.Client.Posting.{
  State, Subscription, Sent, Response, Agent, state_eq, is_allocated, send, send_current_state,
  try_alloc, set_state,
}
use shamichan.Client.Posting.Accepted.{served_all-append, onto}
use shamichan.Client.Posting.Events.{
  Event, Request, SelectionTests, Step, event, input, join, leave, quote, is_allocating, selected,
  respond_views, send_to_views, connected_in, conn_changed, claim, close_in, update, handle_input,
  connected, disconnected, step, run, initial,
}
use shamichan.Client.Posting.Mirrored.{
  Mirrored, Mirrors, body, Mirrored-if, Mirrored-try_alloc, Mirrored-commit_text,
  Mirrored-commit_pending_in, Mirrored-set_state, Mirrored-stop, Mirrored-reset,
}

-- The body, where the state of the agent is known.
copies_in : (a : Agent) (s : State) → a.state ≡ s → Mirrored a → Mirrors s (body a.sent) a.post_body
copies_in a s e h = subst (λ t. Mirrors t (body a.sent) a.post_body) e h.mirrors

Mirrored-respond_views :
    (subs : HashMap ℕ Subscription) (r : Response) (a : Agent)
    → Mirrored a
    → Mirrored (respond_views subs r a)
Mirrored-respond_views [] r a h = h
Mirrored-respond_views ((id, Subscription.view_updates) ∷ subs) r a h =
    Mirrored-respond_views subs r (record a { responses = a.responses ++ (id, r) ∷ [] })
      (record { mirrors = h.mirrors; short = h.short })
Mirrored-respond_views ((id, Subscription.state_only) ∷ subs) r a h =
    Mirrored-respond_views subs r a h

module _ (app : App.State) where
  Mirrored-quote :
      (a : Agent) (post : ℕ) (t : SelectionTests) → Mirrored a → Mirrored (quote app a post t)
  unfolding quote send_to_views
  Mirrored-quote a post t h =
      let b = try_alloc app a in
      let r = Response.render_quoted post (selected b.last_selection t) in
      let k = Mirrored-try_alloc app a h in
      Mirrored-if (is_allocating b.state) b (respond_views b.subscribers r b) (λ _. k)
        (λ _. Mirrored-respond_views b.subscribers r b k)

  -- A state that is set in one without an allocated post.
  leaves :
      (a : Agent) (s t : State)
      → a.state ≡ s
      → (Mirrors s (body a.sent) a.post_body → body a.sent ≡ some [])
      → (is_allocated s ≡ true → a.post_body ≡ [])
      → Mirrored a
      → Mirrored (set_state app a t)
  leaves a s t e there here h =
      Mirrored-set_state app a t h.short (there (copies_in a s e h))
        (λ on. here (ap is_allocated (sym e) ∙ on))

  Mirrored-connected_in :
      (a : Agent) (s : State) (cs : Connection.State)
      → a.state ≡ s
      → Mirrored a
      → Mirrored (connected_in app a s cs)
  Mirrored-connected_in a (State.draft t) Connection.handshake_complete e h =
      Mirrored-commit_pending_in app a (ap is_allocated e) h
  Mirrored-connected_in a (State.allocating t) cs e h =
      leaves a (State.allocating t) (State.draft t) e (λ k. k) (λ on. absurd (ground arith)) h
  Mirrored-connected_in a (State.need_captcha t) cs e h =
      leaves a (State.need_captcha t) (State.draft t) e (λ k. k) (λ on. absurd (ground arith)) h
  Mirrored-connected_in a s cs e h = h

  Mirrored-conn_changed :
      (a : Agent) (cs : Connection.State) → Mirrored a → Mirrored (conn_changed app a cs)
  Mirrored-conn_changed a Connection.critical_error h = Mirrored-stop app a h
  Mirrored-conn_changed a cs h = Mirrored-connected_in a a.state cs refl h

  Mirrored-claim :
      (a : Agent) (o : Option ℕ) (s : State) → a.state ≡ s → Mirrored a → Mirrored (claim app a o s)
  Mirrored-claim a (some id) State.ready e h =
      leaves a State.ready (State.allocated id) e (λ k. k) (λ on. absurd (ground arith)) h
  Mirrored-claim a (some id) (State.draft t) e h =
      leaves a (State.draft t) (State.allocated id) e (λ k. k) (λ on. absurd (ground arith)) h
  Mirrored-claim a (some id) (State.allocating t) e h =
      leaves a (State.allocating t) (State.allocated id) e (λ k. k) (λ on. absurd (ground arith)) h
  Mirrored-claim a o s e h = h

  Mirrored-update : (a : Agent) (e : Event) → Mirrored a → Mirrored (update app a e)
  unfolding update
  Mirrored-update a (Event.conn_state_update cs) h =
      Mirrored-conn_changed (record a { conn_state = cs }) cs
        (record { mirrors = h.mirrors; short = h.short })
  Mirrored-update a Event.open_post_id_change h = Mirrored-claim a app.open_post_id a.state refl h
  Mirrored-update a (Event.selection_change none) h = h
  Mirrored-update a (Event.selection_change (some text)) h = record {
    mirrors = h.mirrors;
    short = h.short;
  }

  Mirrored-close_in :
      (a : Agent) (s : State) → a.state ≡ s → Mirrored a → Mirrored (close_in app a s)
  Mirrored-close_in a (State.draft t) e h = Mirrored-reset app a (copies_in a (State.draft t) e h)
  Mirrored-close_in a (State.need_captcha t) e h =
      Mirrored-reset app a (copies_in a (State.need_captcha t) e h)
  Mirrored-close_in a (State.allocated post) e h = Mirrored-reset app (send a Sent.close_post) (
      served_all-append (some []) a.sent Sent.close_post
      ∙ ap (λ o. onto o Sent.close_post) (copies_in a (State.allocated post) e h))
  Mirrored-close_in a s e h = h

-- The texts of the form are not longer than 2000 characters.
abbrev pub Short : Step → Type 0
Short (input app (Request.commit_text text) h) = length text ≤ 2000
Short s = Unit

abbrev pub AllShort : List Step → Type 0
AllShort [] = Unit
AllShort (s ∷ ss) = Short s × AllShort ss

ready_lem : (s : State) → state_eq s State.ready ≡ true → s ≡ State.ready
ready_lem State.ready h = refl
ready_lem s h = absurd (ground arith)

Mirrored-step : (a : Agent) (s : Step) → Short s → Mirrored a → Mirrored (step a s)
unfolding step handle_input connected disconnected send_current_state
Mirrored-step a (event app e) s h = Mirrored-update app a e h
Mirrored-step a (input app (Request.quote_post post t) id) s h = Mirrored-quote app a post t h
Mirrored-step a (input app Request.sub_view_updates id) s h = record {
  mirrors = h.mirrors;
  short = h.short;
}
Mirrored-step a (input app (Request.commit_text text) id) s h = Mirrored-commit_text app a text s h
Mirrored-step a (input app (Request.open_draft t) id) s h =
    Mirrored-if (state_eq a.state State.ready) (set_state app a (State.draft t)) a
      (λ e.
        leaves app a State.ready (State.draft t) (ready_lem a.state e) (λ k. k)
          (λ on. absurd (ground arith)) h)
      (λ _. h)
Mirrored-step a (input app Request.close id) s h = Mirrored-close_in app a a.state refl h
Mirrored-step a (join id) s h = record { mirrors = h.mirrors; short = h.short }
Mirrored-step a (leave id) s h = record { mirrors = h.mirrors; short = h.short }

-- After any run from the start in which no text is longer than 2000 characters, unless a critical
-- error stopped the agent: the server's handlers, given the messages that the agent sent, in their
-- order and each while the post that it edits is open, refuse none of them as an edit, and an
-- allocated post's body that the agent holds is the one that they make; without an allocated post
-- they make the empty body. That the connection delivers the messages, and that the post is open on
-- the server, also after the connection was lost, is not stated.
pub run-Mirrored : (ss : List Step) → AllShort ss → Mirrored (run initial ss)
run-Mirrored ss s = go initial ss s (record { mirrors = refl; short = omega arith })
  where
    go : (a : Agent) (ss : List Step) → AllShort ss → Mirrored a → Mirrored (run a ss)
    go a [] s h = h
    go a (t ∷ ss) (s, r) h = go (step a t) ss r (Mirrored-step a t s h)
