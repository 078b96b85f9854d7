-- ===== src/Server/MtContext/System.antt =====
-- The scheduler, its task in the Tokio runtime and its mailbox (server/src/mt_context.rs), in steps
-- that interleave.
pub mod Guards
use shamichan.Prelude.{
  List, [], ◌∷◌, ◌++◌, Option, none, some, Bool, true, false, if◌then◌else◌, ◌||◌,
}
use shamichan.Server.MtContext.{
  ActorState, Scheduler, Done, Action, Running, set_stopping_state, queue_message, handle_done,
  on_stopping, is_empty,
}
use shamichan.Server.MtContext

-- What a task has left of its batch, and whether its context stopped itself.
pub record Task {ℓ} (M : Type ℓ) : Type ℓ where
  pub rest : List M
  pub stopped_self : Bool
  -- the loop was left before its end
  pub leaves : Bool

-- `locked` lasts until the task is dropped, which is behind the sending of `Done`.
pub record System {ℓ} (M : Type ℓ) : Type ℓ where
  pub scheduler : Scheduler M
  pub locked : Bool
  pub task : Option (Task M)
  pub mailbox : List (Done M)
  pub handled : List M
  pub terminated : Bool

-- How the actor leaves the handling of a message.
pub data Outcome : Type 0 where
  goes_on stops terminates : Outcome

pub data Event {ℓ} (M : Type ℓ) : Type ℓ where
  -- a message to the scheduler
  queues : M → Event M
  -- the task handles the next message of its batch
  handles : Outcome → Event M
  -- the task sends `Done`
  finishes : Event M
  -- the task drops the lock
  releases : Event M
  -- the scheduler handles the oldest `Done`
  receives : Event M
  -- actix calls `stopping`
  asks : Running → Event M

-- `MTContext::stop` and `MTContext::terminate`
abbrev pub new_state : Outcome → ActorState → ActorState
new_state Outcome.goes_on s = s
new_state Outcome.stops s = set_stopping_state s ActorState.stopping
new_state Outcome.terminates s = set_stopping_state s ActorState.stopped

abbrev pub stops_self : Outcome → Bool
stops_self Outcome.goes_on = false
stops_self Outcome.stops = true
stops_self Outcome.terminates = true

abbrev pub is_stopping : ActorState → Bool
is_stopping ActorState.stopping = true
is_stopping ActorState.stopped = true
is_stopping _ = false

abbrev pub ends : Running → Bool
ends Running.continue_running = false
ends Running.stop_running = true

module _ {ℓ} {M : Type ℓ} where
  -- A scheduler that runs, with nothing to do.
  unfoldable pub start : System M
  unfolding MtContext.new MtContext.on_started
  start = record {
    scheduler = MtContext.on_started MtContext.new;
    locked = false;
    task = none;
    mailbox = [];
    handled = [];
    terminated = false;
  }

  abbrev pub act : Action M → System M → System M
  act (Action.spawn batch) x = record x {
    locked = true;
    task = some (record { rest = batch; stopped_self = false; leaves = false });
  }
  act Action.stop x = x
  act Action.terminate x = record x { terminated = true }
  act (Action.notify d) x = record x { mailbox = x.mailbox ++ d ∷ [] }

  abbrev pub act_all : List (Action M) → System M → System M
  act_all [] x = x
  act_all (a ∷ as') x = act_all as' (act a x)

  abbrev pub scheduled : System M → Scheduler M × List (Action M) → System M
  scheduled x (s, actions) = act_all actions (record x { scheduler = s })

  abbrev pub receive : System M → List (Done M) → Option (System M)
  receive x [] = none
  receive x (d ∷ ds) =
      some (scheduled (record x { mailbox = ds }) (handle_done x.locked x.scheduler d))

  -- One round of the task's loop: behind a message at which the actor stops, the loop is left.
  abbrev pub round : System M → Outcome → Task M → List M → Option (System M)
  round x o t [] = none
  round x o t (m ∷ rest) =
      if t.leaves
      then none
      else let state = new_state o x.scheduler.state in
        some (record x {
          scheduler = record x.scheduler { state = state };
          task = some (record {
            rest = rest;
            stopped_self = stops_self o;
            leaves = stops_self o || is_stopping state;
          });
          handled = x.handled ++ m ∷ [];
        })

  abbrev pub handle : System M → Outcome → Option (Task M) → Option (System M)
  handle x o none = none
  handle x o (some t) = round x o t t.rest

  -- `scheduler.do_send(Done { .. })`
  abbrev pub finish : System M → Option (Task M) → Option (System M)
  finish x none = none
  finish x (some t) =
      if t.leaves || is_empty t.rest
      then some (record x {
        task = none;
        mailbox = x.mailbox ++ record { unprocessed = t.rest; stopped_self = t.stopped_self } ∷ [];
      })
      else none

  -- The lock is dropped with the task, and only then.
  abbrev pub release : System M → Option (Task M) → Option (System M)
  release x none = if x.locked then some (record x { task = none; locked = false }) else none
  release x (some t) = none

  -- What an event makes of a system, none where it cannot happen.
  unfoldable pub step : Event M → System M → Option (System M)
  unfolding queue_message handle_done on_stopping
  step (Event.queues m) x =
      if x.terminated then none else some (scheduled x (queue_message x.locked x.scheduler m))
  step (Event.handles o) x = handle x o x.task
  step Event.finishes x = finish x x.task
  step Event.releases x = release x x.task
  step Event.receives x = if x.terminated then none else receive x x.mailbox
  step (Event.asks answer) x =
      if x.terminated
      then none
      else let (s, result) = on_stopping x.locked answer x.scheduler in
        some (record x { scheduler = s; terminated = ends result })

  abbrev pub and_then : Option (System M) → (System M → Option (System M)) → Option (System M)
  and_then none f = none
  and_then (some x) f = f x

  unfoldable pub run : List (Event M) → System M → Option (System M)
  run [] x = some x
  run (e ∷ es) x = and_then (step e x) (run es)
