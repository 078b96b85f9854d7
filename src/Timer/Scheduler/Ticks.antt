-- ===== src/Timer/Scheduler/Ticks.antt =====
-- The loop on `Message::Tick` ends, and serves each due subscriber once.
use shamichan.Prelude.{
  ℕ, zero, suc, ◌+◌, ◌^◌, ◌≤◌, ◌<◌, ◌≡◌, refl, ap, sym, ◌∙◌, subst, List, [], ◌∷◌, ◌++◌, map, some,
  false, if◌then◌else◌, ltb, length, arith, Bool-cases, inl, inr, append-nil, append_assoc, ltb→lt,
}
use mathlib.Core.List.{Perm}
use mathlib.Core.List.Perm
use shamichan.Timer.Queue
use shamichan.Timer.Queue.Order.{AtLeast, IsSorted, insert-IsSorted, insert-perm}
use shamichan.Timer.RelativeTime.{Tick, set_next_tick, years}
use shamichan.Timer.RelativeTime.Exact.{length as unit_length}
use shamichan.Timer.RelativeTime.NextTick.{set_next_tick_lem}
use shamichan.Timer.Scheduler.{
  Scheduler, Response, tick_lt, send, send_each, update_now, tick_loop, tick,
}

abbrev pub pending : Tick → ℕ
pending t = t.pending_on

-- The ticks that are due, in their order.
abbrev pub due : ℕ → List Tick → List Tick
due now [] = []
due now (t ∷ ts) = if ltb now t.pending_on then due now ts else t ∷ due now ts

abbrev pub ids : List Tick → List ℕ
ids = map (λ t. t.id)

due-insert :
    (now : ℕ) (q : List Tick) (v : Tick)
    → now < v.pending_on
    → due now (Queue.insert tick_lt q v) ≡ due now q
unfolding Queue.insert
due-insert now [] v h = ground arith
due-insert now (t ∷ q) v h = ground (arith, due-insert now q v h)

-- Behind a tick that is not due no tick is due.
due-AtLeast : (now k : ℕ) (q : List Tick) → now < k → AtLeast pending k q → due now q ≡ []
due-AtLeast now k [] h a = refl
due-AtLeast now k (t ∷ q) h (a, b) = ground (arith, due-AtLeast now k q h b)

AtLeast_later :
    (now k : ℕ) (q : List Tick) → now < k → AtLeast pending k q → AtLeast pending (suc now) q
AtLeast_later now k [] h a = tt
AtLeast_later now k (t ∷ q) h (a, b) = (omega arith, AtLeast_later now k q h b)

-- What the loop must leave: no tick is due, the order is kept, the subscribers are the same.
pub record Served (s s' : Scheduler) : Type 0 where
  pub later : AtLeast pending (suc s.now) s'.queue
  pub sorted : IsSorted pending s'.queue
  pub same_ids : Perm (ids s'.queue) (ids s.queue)
  pub same_now : s'.now ≡ s.now
  pub same_mode : s'.use_relative ≡ s.use_relative
  pub same_correction : s'.time_correction ≡ s.time_correction

-- The queue after one due tick is refreshed.
abbrev refreshed : Scheduler → Tick → List Tick → Scheduler
refreshed s t q = record s { queue = Queue.insert tick_lt q (set_next_tick t s.now) }

refreshed_ids :
    (s : Scheduler) (t : Tick) (q : List Tick)
    → s.now + unit_length years < 2 ^ 32
    → Perm (ids (refreshed s t q).queue) (t.id ∷ ids q)
refreshed_ids s t q h =
    let (_, _, _, _, same, _) = set_next_tick_lem t s.now h in
    subst (λ i. Perm (ids (refreshed s t q).queue) (i ∷ ids q)) same
      (Perm.map (λ t. t.id) (insert-perm pending q (set_next_tick t s.now)))

sent_each :
    (s : Scheduler) (t : Tick) (q' q : List Tick) (sent : List Response)
    → due s.now q' ≡ due s.now q
    → (sent ++ send s t ∷ []) ++ send_each s (due s.now q') ≡ sent ++ send_each s (t ∷ due s.now q)
sent_each s t q' q sent same =
    rw same (append_assoc sent (send s t ∷ []) (send_each s (due s.now q)))

length-due : (now : ℕ) (q : List Tick) → length (due now q) ≤ length q
length-due now [] = omega arith
length-due now (t ∷ q) = ground (arith, length-due now q)

tick_loop-due :
    (fuel : ℕ) (s s' : Scheduler) (t : Tick) (q : List Tick) (sent : List Response)
    → ltb s.now t.pending_on ≡ false
    → due s.now (refreshed s t q).queue ≡ due s.now q
    → tick_loop fuel (refreshed s t q) (sent ++ send s t ∷ [])
      ≡ some (s', (sent ++ send s t ∷ []) ++ send_each s (due s.now (refreshed s t q).queue))
    → tick_loop (suc fuel) (record s { queue = t ∷ q }) sent
      ≡ some (s', sent ++ send_each s (due s.now (t ∷ q)))
unfolding tick_loop
tick_loop-due fuel s s' t q sent e same run =
    rw e (run ∙ ap (λ l. some (s', l)) (sent_each s t (refreshed s t q).queue q sent same))

-- The fuel is above the number of due ticks: a refreshed tick is due after now, so each round leaves
-- one due tick less.
tick_loop_lem :
    (fuel : ℕ) (s : Scheduler) (q : List Tick) (sent : List Response)
    → s.now + unit_length years < 2 ^ 32
    → IsSorted pending q
    → length (due s.now q) < fuel
    → (s' : Scheduler) × (tick_loop fuel (record s { queue = q }) sent
        ≡ some (s', sent ++ send_each s (due s.now q)))
      × Served (record s { queue = q }) s'
unfolding tick_loop
tick_loop_lem zero s q sent r o h = absurd (omega arith)
tick_loop_lem (suc fuel) s [] sent r o h = (
  record s { queue = [] },
  ap (λ l. some (record s { queue = [] }, l)) (sym (append-nil sent)),
  record {
    later = tt;
    sorted = tt;
    same_ids = Perm.refl [];
    same_now = refl;
    same_mode = refl;
    same_correction = refl;
  },
)
tick_loop_lem (suc fuel) s (t ∷ q) sent r (a, o) h = elim (Bool-cases (ltb s.now t.pending_on)) [
  | inl e ↦
      let after : s.now < t.pending_on = ltb→lt s.now t.pending_on e in
      let done = due-AtLeast s.now t.pending_on q after a in
      (
        record s { queue = t ∷ q },
        rw (e, done) (ap (λ l. some (record s { queue = t ∷ q }, l)) (sym (append-nil sent))),
        record {
          later = (omega arith, AtLeast_later s.now t.pending_on q after a);
          sorted = (a, o);
          same_ids = Perm.refl (ids (t ∷ q));
          same_now = refl;
          same_mode = refl;
          same_correction = refl;
        },
      )
  | inr e ↦
      let (next, _, _, _, _, _) = set_next_tick_lem t s.now r in
      let v = set_next_tick t s.now in
      let q' = (refreshed s t q).queue in
      let same : due s.now q' ≡ due s.now q = due-insert s.now q v next in
      let one : due s.now (t ∷ q) ≡ t ∷ due s.now q = rw e refl in
      let fewer : length (due s.now q') < fuel =
        rw same (omega (arith, subst (λ l. length l < suc fuel) one h)) in
      let (s', run, served) =
        tick_loop_lem fuel s q' (sent ++ send s t ∷ []) r (insert-IsSorted pending q v o) fewer in
      (
        s',
        tick_loop-due fuel s s' t q sent e same run,
        record {
          later = served.later;
          sorted = served.sorted;
          same_ids = Perm.trans served.same_ids (refreshed_ids s t q r);
          same_now = served.same_now;
          same_mode = served.same_mode;
          same_correction = served.same_correction;
        },
      )
]

-- `update` on `Message::Tick`, with fuel above the number of queued ticks, on an ordered queue and
-- with the clock a year below 2^32: it ends, and sends to each due subscriber one response, in the
-- order of the ticks, with the diff its tick held. After it no queued tick is due, the queue is
-- ordered and the same subscribers are in it.
pub tick_lem :
    (fuel : ℕ) (s : Scheduler) (clock : ℕ)
    → (update_now s clock).now + unit_length years < 2 ^ 32
    → IsSorted pending s.queue
    → length s.queue < fuel
    → (s' : Scheduler) × (tick fuel s clock
        ≡ some (s', send_each s (due (update_now s clock).now s.queue)))
      × Served (update_now s clock) s'
unfolding tick update_now
tick_lem fuel s clock r o h =
    tick_loop_lem fuel (update_now s clock) s.queue [] r o
      (omega (arith, length-due (update_now s clock).now s.queue))
