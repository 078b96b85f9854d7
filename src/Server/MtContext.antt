-- ===== src/Server/MtContext.antt =====
-- The actor scheduler of server/src/mt_context.rs. `locked` says whether a task of the Tokio runtime
-- holds the actor; what a handler asks of actix and of the runtime is the list it returns.
pub mod System
pub mod Order
pub mod Conserved
pub mod Stranded
use shamichan.Prelude.{List, [], ◌∷◌, ◌++◌, Bool, true, false, if◌then◌else◌, not, ◌&&◌}

-- `ActorState` of actix
pub data ActorState : Type 0 where
  started running stopping stopped : ActorState

pub record Scheduler {ℓ} (M : Type ℓ) : Type ℓ where
  pub state : ActorState
  pub stopped_self : Bool
  pub pending : List M

pub record Done {ℓ} (M : Type ℓ) : Type ℓ where
  pub unprocessed : List M
  pub stopped_self : Bool

pub data Action {ℓ} (M : Type ℓ) : Type ℓ where
  spawn : List M → Action M
  stop terminate : Action M
  notify : Done M → Action M

-- `Running` of actix
pub data Running : Type 0 where
  continue_running stop_running : Running

abbrev pub is_empty {ℓ} : {A : Type ℓ} → List A → Bool
is_empty [] = true
is_empty (x ∷ xs) = false

-- `set_stopping_state`
unfoldable pub set_stopping_state : ActorState → ActorState → ActorState
set_stopping_state running new = new
set_stopping_state current stopped = stopped
set_stopping_state current new = current

abbrev pub stopped_state : Running → ActorState
stopped_state continue_running = running
stopped_state stop_running = stopped

module _ {ℓ} {M : Type ℓ} where
  -- `Scheduler::new`
  unfoldable pub new : Scheduler M
  new = record { state = started; stopped_self = false; pending = [] }

  -- `Scheduler::started`
  unfoldable pub on_started : Scheduler M → Scheduler M
  on_started s = record s { state = running }

  -- `Scheduler::try_run_pending`: all pending messages go to one task, if none runs.
  unfoldable pub try_run_pending : Bool → Scheduler M → Scheduler M × List (Action M)
  try_run_pending locked s =
      if is_empty s.pending
      then (s, [])
      else if locked
      then (s, [])
      else (record s { pending = [] }, spawn s.pending ∷ [])

  -- `Scheduler::queue_message`
  unfoldable pub queue_message : Bool → Scheduler M → M → Scheduler M × List (Action M)
  queue_message locked s msg = try_run_pending locked (record s { pending = s.pending ++ msg ∷ [] })

  abbrev pub after_done : ActorState → Bool → Scheduler M → Bool → Scheduler M × List (Action M)
  after_done stopped locked s stopped_self = (s, terminate ∷ [])
  after_done stopping locked s stopped_self = (
    record s { stopped_self = stopped_self },
    stop ∷ notify (record { unprocessed = []; stopped_self = false }) ∷ [],
  )
  after_done running locked s stopped_self = try_run_pending locked s
  after_done started locked s stopped_self = (s, [])

  -- `Handler<Done>`: unprocessed messages go back to the front, in their order.
  unfoldable pub handle_done : Bool → Scheduler M → Done M → Scheduler M × List (Action M)
  handle_done locked s d =
      after_done s.state locked (record s { pending = d.unprocessed ++ s.pending }) d.stopped_self

  -- `Scheduler::stopping`, where `answer` is what the actor's own `stopping` gives.
  unfoldable pub on_stopping : Bool → Running → Scheduler M → Scheduler M × Running
  on_stopping locked answer s =
      if not (is_empty s.pending) && not s.stopped_self
      then (s, continue_running)
      else if locked
      then (record s { state = set_stopping_state s.state stopping }, continue_running)
      else (record s { stopped_self = false; state = stopped_state answer }, answer)

  -- `Scheduler::stopped`
  unfoldable pub on_stopped : Scheduler M → Scheduler M
  on_stopped s = record s { state = stopped }
