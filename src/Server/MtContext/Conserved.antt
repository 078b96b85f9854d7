-- ===== src/Server/MtContext/Conserved.antt =====
-- No message is lost and none is handled twice, however the actor stops (server/src/mt_context.rs).
use shamichan.Prelude.{
  ℕ, suc, ◌+◌, ◌≡◌, refl, ap, sym, ◌∙◌, subst, List, [], ◌∷◌, ◌++◌, Option, none, some, Bool, true,
  false, if◌then◌else◌, ◌||◌, arith, Option-cases, inl, inr,
}
use shamichan.Server.MtContext.{
  ActorState, Scheduler, Done, Running, queue_message, handle_done, after_done, is_empty,
  try_run_pending, on_stopping,
}
use shamichan.Server.MtContext.System.{
  System, Task, Outcome, Event, start, step, run, scheduled, round, handle, finish, release,
  receive, and_then,
}
use shamichan.Server.MtContext.System.Guards.{admitted, guarded, unguarded}
use shamichan.Server.MtContext.Order.{left, sent, all_sent}

module _ {ℓ} {M : Type ℓ} (p : M → Bool) where
  -- How many messages of a kind are in a list.
  abbrev pub count : List M → ℕ
  count [] = 0
  count (m ∷ ms) = if p m then suc (count ms) else count ms

  abbrev pub count_back : List (Done M) → ℕ
  count_back [] = 0
  count_back (d ∷ ds) = count d.unprocessed + count_back ds

  count-append : (xs ys : List M) → count (xs ++ ys) ≡ count xs + count ys
  count-append [] ys = omega arith
  count-append (x ∷ xs) ys = ground (arith, count-append xs ys)

  count-cons : (x : M) (xs : List M) → count (x ∷ xs) ≡ count (x ∷ []) + count xs
  count-cons x xs = ground arith

  count_back-append :
      (xs ys : List (Done M)) → count_back (xs ++ ys) ≡ count_back xs + count_back ys
  count_back-append [] ys = omega arith
  count_back-append (x ∷ xs) ys = omega (arith, count_back-append xs ys)

  -- The messages of the kind in the system: handled, in the task's batch, on their way back, pending.
  abbrev pub count_all : System M → ℕ
  count_all x =
      count x.handled + count (left x.task) + count_back x.mailbox + count x.scheduler.pending

  -- A task holds the lock.
  abbrev Holds : Bool → Option (Task M) → Type 0
  Holds locked none = Unit {0}
  Holds locked (some t) = locked ≡ true

  record Conserved (n : ℕ) (x : System M) : Type ℓ where
    holds : Holds x.locked x.task
    same : count_all x ≡ n

  try-Conserved :
      (n : ℕ) (x : System M) (pending : List M) (locked : Bool) (task : Option (Task M))
      → let x' = record x {
        scheduler = record x.scheduler { pending = pending };
        locked = locked;
        task = task;
      } in
        Conserved n x' → Conserved n (scheduled x' (try_run_pending locked x'.scheduler))
  unfolding try_run_pending
  try-Conserved n x [] l t h = h
  try-Conserved n x (m ∷ ms) true t h = h
  try-Conserved n x (m ∷ ms) false none h = record { holds = refl; same = omega (arith, h.same) }
  try-Conserved n x (m ∷ ms) false (some t) h = absurd (ground (arith, h.holds))

  queue-Conserved :
      (n : ℕ) (x : System M) (m : M)
      → Conserved n x
      → Conserved (n + count (m ∷ [])) (scheduled x (queue_message x.locked x.scheduler m))
  unfolding queue_message
  queue-Conserved n x m h =
      try-Conserved (n + count (m ∷ [])) x (x.scheduler.pending ++ m ∷ []) x.locked x.task (record {
        holds = h.holds;
        same = omega (arith, h.same, count-append x.scheduler.pending (m ∷ []));
      })

  handle-Conserved :
      (n : ℕ) (x y : System M) (o : Outcome) (task : Option (Task M))
      → Conserved n (record x { task = task })
      → handle x o task ≡ some y
      → Conserved n y
  handle-Conserved n x y o none h e = absurd (ground arith)
  handle-Conserved n x y o (some t) h e = next t.rest refl e
    where
      next : (rest : List M) → t.rest ≡ rest → round x o t rest ≡ some y → Conserved n y
      next [] r e = absurd (ground arith)
      next (m ∷ rest) r e =
          let here : count t.rest ≡ count (m ∷ rest) = ap count r in
          subst (Conserved n) (guarded t.leaves _ y e) (record {
            holds = h.holds;
            same = omega (arith, h.same, here, count-append x.handled (m ∷ []), count-cons m rest);
          })

  finish-Conserved :
      (n : ℕ) (x y : System M) (task : Option (Task M))
      → Conserved n (record x { task = task })
      → finish x task ≡ some y
      → Conserved n y
  finish-Conserved n x y none h e = absurd (ground arith)
  finish-Conserved n x y (some t) h e =
      let d : Done M = record { unprocessed = t.rest; stopped_self = t.stopped_self } in
      subst (Conserved n) (admitted (t.leaves || is_empty t.rest) _ y e)
        (record { holds = tt; same = omega (arith, h.same, count_back-append x.mailbox (d ∷ [])) })

  release-Conserved :
      (n : ℕ) (x y : System M) (task : Option (Task M))
      → Conserved n (record x { task = task })
      → release x task ≡ some y
      → Conserved n y
  release-Conserved n x y (some t) h e = absurd (ground arith)
  release-Conserved n x y none h e =
      subst (Conserved n) (admitted x.locked _ y e) (record { holds = tt; same = h.same })

  done-Conserved :
      (n : ℕ) (x : System M) (st : ActorState) (own : Bool)
      → Conserved n x
      → Conserved n (scheduled x (after_done st x.locked x.scheduler own))
  done-Conserved n x ActorState.stopped own h = record { holds = h.holds; same = h.same }
  done-Conserved n x ActorState.stopping own h = record {
    holds = h.holds;
    same = omega (
      arith,
      h.same,
      count_back-append x.mailbox (record { unprocessed = []; stopped_self = false } ∷ []),
    );
  }
  done-Conserved n x ActorState.running own h =
      try-Conserved n x x.scheduler.pending x.locked x.task h
  done-Conserved n x ActorState.started own h = h

  receive-Conserved :
      (n : ℕ) (x y : System M) (mailbox : List (Done M))
      → Conserved n (record x { mailbox = mailbox })
      → receive x mailbox ≡ some y
      → Conserved n y
  unfolding handle_done
  receive-Conserved n x y [] h e = absurd (ground arith)
  receive-Conserved n x y (d ∷ ds) h e =
      let s : Scheduler M = record x.scheduler { pending = d.unprocessed ++ x.scheduler.pending } in
      let x' : System M = record x { mailbox = ds; scheduler = s } in
      let same : scheduled x' (after_done s.state x.locked s d.stopped_self) ≡ y = cc in
      subst (Conserved n) same (
        done-Conserved n x' s.state d.stopped_self (record {
          holds = h.holds;
          same = omega (arith, h.same, count-append d.unprocessed x.scheduler.pending);
        }))

  on_stopping_pending :
      (locked : Bool) (answer : Running) (s : Scheduler M)
      → (on_stopping locked answer s).0.pending ≡ s.pending
  unfolding on_stopping
  on_stopping_pending locked answer s = ground arith

  n_zero : (n : ℕ) → n + 0 ≡ n
  n_zero n = omega arith

  step-Conserved :
      (n : ℕ) (e : Event M) (x y : System M)
      → Conserved n x
      → step e x ≡ some y
      → Conserved (n + count (sent e)) y
  unfolding step
  step-Conserved n (Event.queues m) x y h e =
      subst (Conserved (n + count (m ∷ []))) (guarded x.terminated _ y e) (queue-Conserved n x m h)
  step-Conserved n (Event.handles o) x y h e = rw (n_zero n) (handle-Conserved n x y o x.task h e)
  step-Conserved n Event.finishes x y h e = rw (n_zero n) (finish-Conserved n x y x.task h e)
  step-Conserved n Event.releases x y h e = rw (n_zero n) (release-Conserved n x y x.task h e)
  step-Conserved n Event.receives x y h e =
      rw (n_zero n)
        (receive-Conserved n x y x.mailbox h (unguarded x.terminated (receive x x.mailbox) y e))
  step-Conserved n (Event.asks answer) x y h e =
      subst (Conserved (n + 0)) (guarded x.terminated _ y e) (record {
        holds = h.holds;
        same = omega (arith, h.same, ap count (on_stopping_pending x.locked answer x.scheduler));
      })

  run-from :
      (n : ℕ) (es : List (Event M)) (x y : System M)
      → Conserved n x
      → run es x ≡ some y
      → count_all y ≡ n + count (all_sent es)
  unfolding run
  run-from n [] x y h e =
      let same : x ≡ y = cc in subst (λ z. count_all z ≡ n + 0) same (omega (arith, h.same))
  run-from n (c ∷ es) x y h e = elim (Option-cases (step c x)) [
    | inl none_next ↦
        let no : none ≡ some y = sym (ap (λ o. and_then o (run es)) none_next) ∙ e in
        absurd (ground arith)
    | inr (z, next) ↦
        let rest =
          run-from (n + count (sent c)) es z y (step-Conserved n c x z h next)
            (sym (ap (λ o. and_then o (run es)) next) ∙ e) in
        omega (arith, rest, count-append (sent c) (all_sent es))
  ]

  -- In every run, also one in which the actor stops: of each kind of message, as many were queued as
  -- are handled, in the batch of the task, on their way back to the scheduler or pending.
  pub run-Conserved :
      (es : List (Event M)) (y : System M)
      → run es start ≡ some y
      → count_all y ≡ count (all_sent es)
  unfolding start
  run-Conserved es y e =
      let rest = run-from 0 es start y (record { holds = tt; same = omega arith }) e in
      omega (arith, rest)
