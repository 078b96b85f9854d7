-- ===== src/Client/Posting/Mirrored.antt =====
-- The body that the messages of the post form's agent make, over a run of it
-- (client/src/post/posting.rs).
pub mod Run
use shamichan.Prelude.{
  ℕ, ◌^◌, ◌≡◌, ◌≢◌, ◌≤◌, refl, ap, sym, subst, ◌∙◌, List, [], ◌∷◌, ◌++◌, Option, none, some, Bool,
  true, false, ◌&&◌, not, if◌then◌else◌, length, arith, Bool-cases, inl, inr,
}
use shamichan.Collections.HashMap.{HashMap}
use shamichan.Feeds.Index.{is_empty}
use shamichan.Server.Client.Posts.Edited.{is_empty_lem}
use shamichan.Client.Location.{is_thread, text_eq}
use shamichan.Client.State as App
use shamichan.Client.Connection as Connection
use shamichan.Client.Posting.{
  State, Subscription, Sent, Response, Agent, state_eq, is_allocated, send, send_current_state,
  send_each, set_state_by, creation, alloc_in, try_alloc, change, commit_in, commit_text,
  commit_pending, set_state, reset,
}
use shamichan.Client.Posting.Change.{text_eq_refl}
use shamichan.Client.Posting.Accepted.{served_all, served_all-append, served-change, onto}

-- The body that the messages make, where the server refuses none of them.
abbrev pub body : List Sent → Option (List ℕ)
body ms = served_all (some []) ms

-- No message is refused, and the body that they make is that of an allocated post; before that it is
-- empty. After a critical error nothing is promised.
abbrev pub Mirrors : State → Option (List ℕ) → List ℕ → Type 0
Mirrors (State.allocated post) there here = there ≡ some here
Mirrors State.critical_error there here = Unit
Mirrors s there here = there ≡ some []

pub record Mirrored (a : Agent) : Type 0 where
  pub mirrors : Mirrors a.state (body a.sent) a.post_body
  pub short : length a.post_body ≤ 2000

pub Mirrored-send_each :
    (subs : HashMap ℕ Subscription) (a : Agent) → Mirrored a → Mirrored (send_each subs a)
unfolding send_current_state
Mirrored-send_each [] a h = h
Mirrored-send_each ((id, s) ∷ subs) a h =
    Mirrored-send_each subs (send_current_state a id)
      (record { mirrors = h.mirrors; short = h.short })

-- A state that is set, by what it is after its text is committed.
Mirrored-set_state_by :
    (commit : Agent → Agent) (a : Agent) (s : State)
    → (is_allocated s ≡ true → Mirrored (commit (record a { state = s })))
    → (is_allocated s ≡ false → Mirrored (record a { state = s }))
    → (state_eq a.state s ≡ true → Mirrored a)
    → Mirrored (set_state_by commit a s)
unfolding set_state_by
Mirrored-set_state_by commit a s on off h = elim (Bool-cases (state_eq a.state s)) [
  | inl e ↦ rw e (h e)
  | inr e ↦ elim (Bool-cases (is_allocated s)) [
    | inl f ↦ rw e (
        rw f (
          Mirrored-send_each (commit (record a { state = s })).subscribers
            (commit (record a { state = s })) (on f)))
    | inr f ↦ rw e (rw f (Mirrored-send_each a.subscribers (record a { state = s }) (off f)))
  ]
]

-- While no post is allocated, the server has no body.
unallocated :
    (s : State) (there : Option (List ℕ)) (here : List ℕ)
    → is_allocated s ≡ false
    → there ≡ some []
    → Mirrors s there here
unallocated (State.allocated post) there here h e = absurd (ground arith)
unallocated State.ready there here h e = e
unallocated (State.draft t) there here h e = e
unallocated (State.allocating t) there here h e = e
unallocated (State.need_captcha t) there here h e = e
unallocated State.critical_error there here h e = tt

-- Without an allocated post the agent's text is free.
any_here :
    (s : State) (there : Option (List ℕ)) (here text : List ℕ)
    → is_allocated s ≡ false
    → Mirrors s there here
    → Mirrors s there text
any_here (State.allocated post) there here text h e = absurd (ground arith)
any_here State.ready there here text h e = e
any_here (State.draft t) there here text h e = e
any_here (State.allocating t) there here text h e = e
any_here (State.need_captcha t) there here text h e = e
any_here State.critical_error there here text h e = tt

allocated_same :
    (s : State) (there : Option (List ℕ)) (here : List ℕ)
    → is_allocated s ≡ true
    → Mirrors s there here
    → there ≡ some here
allocated_same (State.allocated post) there here h e = e
allocated_same s there here h e = absurd (ground arith)

allocated_agree :
    (s : State) (there : Option (List ℕ)) (here : List ℕ)
    → there ≡ some here
    → is_allocated s ≡ true
    → Mirrors s there here
allocated_agree (State.allocated post) there here e h = e
allocated_agree s there here e h = absurd (ground arith)

state_eq-is_allocated : (s t : State) → state_eq s t ≡ true → is_allocated s ≡ is_allocated t
state_eq-is_allocated State.ready State.ready h = refl
state_eq-is_allocated (State.draft a) (State.draft b) h = refl
state_eq-is_allocated (State.allocating a) (State.allocating b) h = refl
state_eq-is_allocated (State.allocated a) (State.allocated b) h = refl
state_eq-is_allocated (State.need_captcha a) (State.need_captcha b) h = refl
state_eq-is_allocated State.critical_error State.critical_error h = refl
state_eq-is_allocated s t h = absurd (ground arith)

Mirrored-if :
    (b : Bool) (a c : Agent)
    → (b ≡ true → Mirrored a)
    → (b ≡ false → Mirrored c)
    → Mirrored (if b then a else c)
Mirrored-if true a c h k = h refl
Mirrored-if false a c h k = k refl

differs : (here text : List ℕ) → text_eq text here ≡ false → here ≢ text
differs here text f e =
    let g : text_eq text here ≡ true = ap (text_eq text) e ∙ text_eq_refl text in
    absurd (ground arith)

module _ (app : App.State) where
  Mirrored-alloc_in :
      (a : Agent) (s : State) → a.state ≡ s → Mirrored a → Mirrored (alloc_in app a s)
  Mirrored-alloc_in a (State.draft thread) k h =
      let b = send a (Sent.insert_post (creation app thread)) in
      let e : body b.sent ≡ some [] =
        served_all-append (some []) a.sent (Sent.insert_post (creation app thread))
        ∙ ap (λ o. onto o (Sent.insert_post (creation app thread)))
            (subst (λ s. Mirrors s (body a.sent) a.post_body) k h.mirrors) in
      Mirrored-if (is_thread app.location) (set_state_by (λ c. c) b (State.allocating thread)) a
        (λ _.
          Mirrored-set_state_by (λ c. c) b (State.allocating thread) (λ f. absurd (ground arith))
            (λ _. record { mirrors = e; short = h.short })
            (λ f. record {
              mirrors =
                  unallocated a.state (body b.sent) a.post_body
                    (state_eq-is_allocated a.state (State.allocating thread) f) e;
              short = h.short;
            }))
        (λ _. h)
  Mirrored-alloc_in a s k h = h

  pub Mirrored-try_alloc : (a : Agent) → Mirrored a → Mirrored (try_alloc app a)
  unfolding try_alloc
  Mirrored-try_alloc a h = Mirrored-alloc_in a a.state refl h

  -- A text that the agent takes, where it is short.
  Mirrored-commit_in :
      (a : Agent) (text : List ℕ)
      → length text ≤ 2000
      → Mirrored a
      → Mirrored (commit_in app a text)
  Mirrored-commit_in a text s h =
      let b = record (send a (change a.post_body text)) { post_body = text } in
      Mirrored-if (not (is_allocated a.state)) (record a { post_body = text })
        (if text_eq text a.post_body then a else b)
        (λ e. record {
          mirrors = any_here a.state (body a.sent) a.post_body text (ground arith) h.mirrors;
          short = s;
        })
        (λ e.
          let on : is_allocated a.state ≡ true = ground arith in
          Mirrored-if (text_eq text a.post_body) a b (λ _. h)
            (λ f. record {
              mirrors =
                  allocated_agree a.state (body b.sent) text
                    (served_all-append (some []) a.sent (change a.post_body text)
                      ∙ ap (λ o. onto o (change a.post_body text))
                          (allocated_same a.state (body a.sent) a.post_body on h.mirrors)
                      ∙ served-change a.post_body text h.short s
                          (λ same. differs a.post_body text f same))
                    on;
              short = s;
            }))

  pub Mirrored-commit_text :
      (a : Agent) (text : List ℕ)
      → length text ≤ 2000
      → Mirrored a
      → Mirrored (commit_text app a text)
  unfolding commit_text
  Mirrored-commit_text a text s h =
      Mirrored-if (is_empty text && is_empty a.post_body) a (commit_in app (try_alloc app a) text)
        (λ _. h) (λ _. Mirrored-commit_in (try_alloc app a) text s (Mirrored-try_alloc a h))

  -- Pending text, where the server has none.
  Mirrored-commit_pending :
      (a : Agent)
      → length a.post_body ≤ 2000
      → is_allocated a.state ≡ true
      → body a.sent ≡ some []
      → Mirrored (commit_pending app a)
  unfolding commit_pending
  Mirrored-commit_pending a s on e =
      let b = record a { post_body = [] } in
      Mirrored-if (is_empty a.post_body) a (commit_text app b a.post_body)
        (λ f. record {
          mirrors =
              allocated_agree a.state (body a.sent) a.post_body
                (e ∙ ap some (sym (is_empty_lem a.post_body f))) on;
          short = s;
        })
        (λ _.
          Mirrored-commit_text b a.post_body s (record {
            mirrors = allocated_agree a.state (body a.sent) [] e on;
            short = omega arith;
          }))

  -- Pending text in any state
  Mirrored-commit_pending_in :
      (a : Agent) → is_allocated a.state ≡ false → Mirrored a → Mirrored (commit_pending app a)
  unfolding commit_pending
  Mirrored-commit_pending_in a off h =
      let b = record a { post_body = [] } in
      Mirrored-if (is_empty a.post_body) a (commit_text app b a.post_body) (λ _. h)
        (λ _. Mirrored-commit_text b a.post_body h.short (record {
          mirrors = any_here a.state (body a.sent) a.post_body [] off h.mirrors;
          short = omega arith;
        }))

  -- A state that is set while the server has no body.
  Mirrored-set_state :
      (a : Agent) (s : State)
      → length a.post_body ≤ 2000
      → body a.sent ≡ some []
      → (is_allocated a.state ≡ true → a.post_body ≡ [])
      → Mirrored (set_state app a s)
  unfolding set_state
  Mirrored-set_state a s short e k =
      Mirrored-set_state_by (commit_pending app) a s
        (λ on. Mirrored-commit_pending (record a { state = s }) short on e)
        (λ off. record { mirrors = unallocated s (body a.sent) a.post_body off e; short = short })
        (λ _. record {
          mirrors = elim (Bool-cases (is_allocated a.state)) [
            | inl on ↦
                allocated_agree a.state (body a.sent) a.post_body (e ∙ ap some (sym (k on))) on
            | inr off ↦ unallocated a.state (body a.sent) a.post_body off e
          ];
          short = short;
        })

  Mirrored-stop : (a : Agent) → Mirrored a → Mirrored (set_state app a State.critical_error)
  unfolding set_state
  Mirrored-stop a h =
      Mirrored-set_state_by (commit_pending app) a State.critical_error
        (λ on. absurd (ground arith)) (λ _. record { mirrors = tt; short = h.short }) (λ _. h)

  pub Mirrored-reset : (a : Agent) → body a.sent ≡ some [] → Mirrored (reset app a)
  unfolding reset
  Mirrored-reset a e =
      Mirrored-set_state (record a { post_body = [] }) State.ready (omega arith) e (λ _. refl)
