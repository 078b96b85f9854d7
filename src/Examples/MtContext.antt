-- ===== src/Examples/MtContext.antt =====
-- Two messages to an actor; the second comes while the first is handled.
use shamichan.Prelude.{ℕ, ◌≡◌, refl, List, [], ◌∷◌, none, some, true, false, ◌==◌}
use shamichan.Server.MtContext.{
  ActorState, queue_message, try_run_pending, on_started, set_stopping_state,
}
use shamichan.Server.MtContext
use shamichan.Server.MtContext.System.{System, Outcome, Event, start, step, run}
use shamichan.Server.MtContext.Order.{InOrder, run-InOrder, all_sent}
use shamichan.Server.MtContext.Conserved.{count, count_all, run-Conserved}
use shamichan.Server.MtContext.Stranded.{IsIdle, sent_done, stranded}

abbrev events : List (Event ℕ)
events = Event.queues 4 ∷ Event.handles Outcome.goes_on ∷ Event.queues 5 ∷ Event.finishes ∷ []

second_pending : run events start ≡ some (sent_done false false true (5 ∷ []) (4 ∷ []))
unfolding run step start MtContext.new on_started queue_message try_run_pending
second_pending = refl

run-InOrder_example : InOrder (all_sent events) (sent_done false false true (5 ∷ []) (4 ∷ []))
run-InOrder_example =
    run-InOrder events (sent_done false false true (5 ∷ []) (4 ∷ [])) (tt, (tt, (tt, (tt, tt))))
      second_pending

abbrev sent_idle : System ℕ
sent_idle = record (sent_done false false true (5 ∷ []) (4 ∷ [])) { locked = false; mailbox = [] }

abbrev handed : System ℕ
handed = record (sent_done false false true [] (4 ∷ [])) {
  task = some (record { rest = 5 ∷ []; stopped_self = false; leaves = false });
  mailbox = [];
}

-- The second message is stranded.
stranded_example :
    (run (Event.receives ∷ Event.releases ∷ []) (sent_done false false true (5 ∷ []) (4 ∷ []))
      ≡ some sent_idle)
    × IsIdle sent_idle
    × (run (Event.releases ∷ Event.receives ∷ []) (sent_done false false true (5 ∷ []) (4 ∷ []))
        ≡ some handed)
stranded_example = stranded false false 5 [] (4 ∷ [])

-- The actor stops itself at the first message, and the second is still pending.
abbrev stopping_events : List (Event ℕ)
stopping_events =
    Event.queues 4 ∷ Event.queues 5 ∷ Event.handles Outcome.stops ∷ Event.finishes ∷ []

abbrev stopping_end : System ℕ
stopping_end = record {
  scheduler = record { state = ActorState.stopping; stopped_self = false; pending = 5 ∷ [] };
  locked = true;
  task = none;
  mailbox = record { unprocessed = []; stopped_self = true } ∷ [];
  handled = 4 ∷ [];
  terminated = false;
}

second_left : run stopping_events start ≡ some stopping_end
unfolding run step start MtContext.new on_started queue_message try_run_pending set_stopping_state
second_left = refl

run-Conserved_example :
    count_all (λ m. m == 5) stopping_end ≡ count (λ m. m == 5) (all_sent stopping_events)
run-Conserved_example = run-Conserved (λ m. m == 5) stopping_events stopping_end second_left
