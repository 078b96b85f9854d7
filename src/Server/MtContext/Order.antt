-- ===== src/Server/MtContext/Order.antt =====
-- Messages are handled in the order in which they are queued (server/src/mt_context.rs).
use shamichan.Prelude.{
  ◌≡◌, refl, ap, sym, ◌∙◌, subst, List, [], ◌∷◌, ◌++◌, Option, none, some, Bool, true, false, ◌||◌,
  All, append-nil, append_assoc, arith, Option-cases, inl, inr,
}
use shamichan.Server.MtContext.{
  ActorState, Scheduler, Done, queue_message, handle_done, after_done, is_empty, try_run_pending,
}
use shamichan.Server.MtContext.System.{
  System, Task, Outcome, Event, start, step, run, scheduled, round, handle, finish, release,
  receive, and_then,
}
use shamichan.Server.MtContext.System.Guards.{guarded, admitted, admits, unguarded}

module _ {ℓ} {M : Type ℓ} where
  abbrev pub left : Option (Task M) → List M
  left none = []
  left (some t) = t.rest

  -- A task holds the lock, and has not left its loop.
  abbrev pub IsAtWork : Bool → Option (Task M) → Type 0
  IsAtWork locked none = Unit {0}
  IsAtWork locked (some t) = (locked ≡ true) × (t.leaves ≡ false)

  -- No message is on its way back, and those that are handled, in the task's batch and pending are
  -- the queued ones in their order.
  pub record InOrder (queued : List M) (x : System M) : Type ℓ where
    pub running : x.scheduler.state ≡ ActorState.running
    pub at_work : IsAtWork x.locked x.task
    pub nothing_back : All (λ d. Done.unprocessed d ≡ []) x.mailbox
    pub order : x.handled ++ (left x.task ++ x.scheduler.pending) ≡ queued

  -- An event that is neither a stop by a handler nor a question whether to stop.
  abbrev pub GoesOn : Event M → Type 0
  GoesOn (Event.handles Outcome.goes_on) = Unit {0}
  GoesOn (Event.handles _) = ⊥
  GoesOn (Event.asks answer) = ⊥
  GoesOn _ = Unit {0}

  abbrev pub sent : Event M → List M
  sent (Event.queues m) = m ∷ []
  sent _ = []

  abbrev pub all_sent : List (Event M) → List M
  all_sent [] = []
  all_sent (e ∷ es) = sent e ++ all_sent es

  abbrev system :
      ActorState → Bool → List M → Bool → Option (Task M) → List (Done M) → List M → Bool → System M
  system state own pending locked task mailbox handled terminated = record {
    scheduler = record { state = state; stopped_self = own; pending = pending };
    locked = locked;
    task = task;
    mailbox = mailbox;
    handled = handled;
    terminated = terminated;
  }

  try-InOrder :
      (q : List M) (st : ActorState) (own : Bool) (pending : List M) (locked : Bool)
      (task : Option (Task M)) (mb : List (Done M)) (hd : List M) (tm : Bool)
      → InOrder q (system st own pending locked task mb hd tm)
      → let x = system st own pending locked task mb hd tm in
        InOrder q (scheduled x (try_run_pending locked x.scheduler))
  unfolding try_run_pending
  try-InOrder q st own [] l t mb hd tm h = h
  try-InOrder q st own (p ∷ ps) true t mb hd tm h = h
  try-InOrder q st own (p ∷ ps) false none mb hd tm h = record {
    running = h.running;
    at_work = (refl, refl);
    nothing_back = h.nothing_back;
    order = ap (λ l. hd ++ l) (append-nil (p ∷ ps)) ∙ h.order;
  }
  try-InOrder q st own (p ∷ ps) false (some t) mb hd tm h = absurd (ground (arith, h.at_work))

  -- A task that has not left its loop sends `Done` at the end of its batch only.
  end_of_batch :
      (leaves : Bool) (rest : List M)
      → leaves ≡ false
      → (leaves || is_empty rest) ≡ true
      → rest ≡ []
  end_of_batch leaves [] l e = refl
  end_of_batch leaves (m ∷ rest) l e = absurd (ground arith)

  queue-InOrder :
      (q : List M) (x : System M) (m : M)
      → InOrder q x
      → InOrder (q ++ m ∷ []) (scheduled x (queue_message x.locked x.scheduler m))
  unfolding queue_message
  queue-InOrder q x m h =
      try-InOrder (q ++ m ∷ []) x.scheduler.state x.scheduler.stopped_self
        (x.scheduler.pending ++ m ∷ []) x.locked x.task x.mailbox x.handled x.terminated
        (record {
          running = h.running;
          at_work = h.at_work;
          nothing_back = h.nothing_back;
          order =
              ap (λ l. x.handled ++ l)
                (sym (append_assoc (left x.task) x.scheduler.pending (m ∷ [])))
              ∙ sym (append_assoc x.handled (left x.task ++ x.scheduler.pending) (m ∷ []))
              ∙ ap (λ l. l ++ m ∷ []) h.order;
        })

  handle-InOrder :
      (q : List M) (x y : System M) (task : Option (Task M))
      → InOrder q (record x { task = task })
      → handle x Outcome.goes_on task ≡ some y
      → InOrder q y
  handle-InOrder q x y none h e = absurd (ground arith)
  handle-InOrder q x y (some t) h e = next t.rest refl e
    where
      next : (rest : List M) → t.rest ≡ rest → round x Outcome.goes_on t rest ≡ some y → InOrder q y
      next [] r e = absurd (ground arith)
      next (m ∷ rest) r e = subst (InOrder q) (guarded t.leaves _ y e) (record {
        running = h.running;
        at_work = (h.at_work.0, rw h.running refl);
        nothing_back = h.nothing_back;
        order =
            append_assoc x.handled (m ∷ []) (rest ++ x.scheduler.pending)
            ∙ ap (λ l. x.handled ++ (l ++ x.scheduler.pending)) (sym r)
            ∙ h.order;
      })

  All-snoc :
      (ds : List (Done M)) (d : Done M)
      → All (λ d. Done.unprocessed d ≡ []) ds
      → d.unprocessed ≡ []
      → All (λ d. Done.unprocessed d ≡ []) (ds ++ d ∷ [])
  All-snoc [] d h e = (e, tt)
  All-snoc (c ∷ ds) d (h, hs) e = (h, All-snoc ds d hs e)

  finish-InOrder :
      (q : List M) (x y : System M) (task : Option (Task M))
      → InOrder q (record x { task = task })
      → finish x task ≡ some y
      → InOrder q y
  finish-InOrder q x y none h e = absurd (ground arith)
  finish-InOrder q x y (some t) h e =
      let done =
        end_of_batch t.leaves t.rest h.at_work.1 (admits (t.leaves || is_empty t.rest) _ y e) in
      subst (InOrder q) (admitted (t.leaves || is_empty t.rest) _ y e) (record {
        running = h.running;
        at_work = tt;
        nothing_back =
            All-snoc x.mailbox (record { unprocessed = t.rest; stopped_self = t.stopped_self })
              h.nothing_back done;
        order = ap (λ l. x.handled ++ (l ++ x.scheduler.pending)) (sym done) ∙ h.order;
      })

  release-InOrder :
      (q : List M) (x y : System M) (task : Option (Task M))
      → InOrder q (record x { task = task })
      → release x task ≡ some y
      → InOrder q y
  release-InOrder q x y (some t) h e = absurd (ground arith)
  release-InOrder q x y none h e =
      subst (InOrder q) (admitted x.locked _ y e) (record {
        running = h.running;
        at_work = tt;
        nothing_back = h.nothing_back;
        order = h.order;
      })

  receive-InOrder :
      (q : List M) (x y : System M) (mailbox : List (Done M))
      → InOrder q (record x { mailbox = mailbox })
      → receive x mailbox ≡ some y
      → InOrder q y
  unfolding handle_done
  receive-InOrder q x y [] h e = absurd (ground arith)
  receive-InOrder q x y (d ∷ ds) h e =
      let s : Scheduler M = record x.scheduler { pending = d.unprocessed ++ x.scheduler.pending } in
      let x' : System M = record x { mailbox = ds } in
      let same : scheduled x' (after_done x.scheduler.state x.locked s d.stopped_self) ≡ y = cc in
      subst (InOrder q) same (
        subst (λ st. InOrder q (scheduled x' (after_done st x.locked s d.stopped_self)))
          (sym h.running)
          (try-InOrder q x.scheduler.state x.scheduler.stopped_self
            (d.unprocessed ++ x.scheduler.pending) x.locked x.task ds x.handled x.terminated
            (record {
              running = h.running;
              at_work = h.at_work;
              nothing_back = h.nothing_back.1;
              order =
                  ap (λ l. x.handled ++ (left x.task ++ (l ++ x.scheduler.pending)))
                    h.nothing_back.0
                  ∙ h.order;
            })))

  step-InOrder :
      (q : List M) (e : Event M) (x y : System M)
      → InOrder q x
      → GoesOn e
      → step e x ≡ some y
      → InOrder (q ++ sent e) y
  unfolding step
  step-InOrder q (Event.queues m) x y h g e =
      subst (InOrder (q ++ m ∷ [])) (guarded x.terminated _ y e) (queue-InOrder q x m h)
  step-InOrder q (Event.handles Outcome.goes_on) x y h g e =
      subst (λ l. InOrder l y) (sym (append-nil q)) (handle-InOrder q x y x.task h e)
  step-InOrder q (Event.handles Outcome.stops) x y h g e = absurd g
  step-InOrder q (Event.handles Outcome.terminates) x y h g e = absurd g
  step-InOrder q Event.finishes x y h g e =
      subst (λ l. InOrder l y) (sym (append-nil q)) (finish-InOrder q x y x.task h e)
  step-InOrder q Event.releases x y h g e =
      subst (λ l. InOrder l y) (sym (append-nil q)) (release-InOrder q x y x.task h e)
  step-InOrder q Event.receives x y h g e =
      subst (λ l. InOrder l y) (sym (append-nil q))
        (receive-InOrder q x y x.mailbox h (unguarded x.terminated (receive x x.mailbox) y e))
  step-InOrder q (Event.asks answer) x y h g e = absurd g

  run-from :
      (q : List M) (es : List (Event M)) (x y : System M)
      → InOrder q x
      → All GoesOn es
      → run es x ≡ some y
      → InOrder (q ++ all_sent es) y
  unfolding run
  run-from q [] x y h g e =
      subst (InOrder (q ++ [])) (cc) (subst (λ l. InOrder l x) (sym (append-nil q)) h)
  run-from q (c ∷ es) x y h (g, gs) e = elim (Option-cases (step c x)) [
    | inl n ↦
        let no : none ≡ some y = sym (ap (λ o. and_then o (run es)) n) ∙ e in absurd (ground arith)
    | inr (z, n) ↦
        subst (λ l. InOrder l y) (append_assoc q (sent c) (all_sent es))
          (run-from (q ++ sent c) es z y (step-InOrder q c x z h g n) gs
            (sym (ap (λ o. and_then o (run es)) n) ∙ e))
  ]

  -- In every run in which no handler stops or terminates the actor and in which actix never asks
  -- whether it is to stop, whatever the answer, the messages that are handled, in the batch of the
  -- task and pending are, in this order, exactly the queued ones in the order of their queueing.
  pub run-InOrder :
      (es : List (Event M)) (y : System M)
      → All GoesOn es
      → run es start ≡ some y
      → InOrder (all_sent es) y
  unfolding start
  run-InOrder es y g e =
      run-from [] es start y
        (record { running = refl; at_work = tt; nothing_back = tt; order = refl }) g e
