-- ===== src/Timer/Scheduler.antt =====
-- `Scheduler` of client/src/time/scheduler.rs. A signed 32-bit number is its bit pattern; the global
-- state and the clock are arguments of the calls that read them, and the responses to subscribers
-- are the list that a call returns.
pub mod Ticks
use shamichan.Prelude.{
  ℕ, zero, suc, ◌+◌, ◌%◌, ◌^◌, List, [], ◌∷◌, ◌++◌, Option, none, some, Bool, true, false,
  if◌then◌else◌, ltb, ◌==◌, not, ◌||◌,
}
use shamichan.Timer.Queue
use shamichan.Timer.RelativeTime.{RelativeTime, Tick, new_tick, set_next_tick}
use shamichan.Timer.RelativeTime

pub record Scheduler : Type 0 where
  pub use_relative : Bool
  pub now : ℕ
  pub time_correction : ℕ
  pub queue : List Tick

pub record Response : Type 0 where
  pub id : ℕ
  pub diff : RelativeTime
  pub use_relative : Bool

-- What the agent reads of the global state.
pub record AppState : Type 0 where
  pub relative_timestamps : Bool
  pub time_correction : ℕ

-- `Tick < Tick`
abbrev pub tick_lt : Tick → Tick → Bool
tick_lt a b = ltb a.pending_on b.pending_on

-- `HandlerIDKey == Tick`
abbrev pub id_key : ℕ → Tick → Bool
id_key id t = id == t.id

-- `Scheduler::send`
abbrev pub send : Scheduler → Tick → Response
send s t = record { id = t.id; diff = t.diff; use_relative = s.use_relative }

-- `Scheduler::refresh_tick`: the response is what the tick held, the queue gets the next tick.
unfoldable pub refresh_tick : Scheduler → Tick → Scheduler × List Response
unfolding Queue.insert
refresh_tick s t =
    (record s { queue = Queue.insert tick_lt s.queue (set_next_tick t s.now) }, send s t ∷ [])

-- `Scheduler::remove`
unfoldable pub remove : Scheduler → ℕ → Scheduler
remove s id = record s { queue = Queue.remove (id_key id) s.queue }

-- `Scheduler::update_now`
unfoldable pub update_now : Scheduler → ℕ → Scheduler
update_now s clock = record s { now = (clock + s.time_correction) % 2 ^ 32 }

-- The state that `create` starts from.
unfoldable pub create : AppState → ℕ → Scheduler
unfolding update_now
create app clock =
    update_now
      (record {
        use_relative = app.relative_timestamps;
        now = 0;
        time_correction = app.time_correction;
        queue = [];
      })
      clock

abbrev pub bool_ne : Bool → Bool → Bool
bool_ne true b = not b
bool_ne false b = b

abbrev pub send_each : Scheduler → List Tick → List Response
send_each s [] = []
send_each s (t ∷ ts) = send s t ∷ send_each s ts

abbrev pub recompute : ℕ → Tick → Tick
recompute now t = record t { diff = RelativeTime.new now t.val }

abbrev pub take_options : Scheduler → AppState → Scheduler
take_options s app = record s { use_relative = app.relative_timestamps }

abbrev pub take_correction : Scheduler → AppState → ℕ → Scheduler
take_correction s app clock =
    let s' = update_now (record s { time_correction = app.time_correction }) clock in
    record s' { queue = Queue.update_each (recompute s'.now) s'.queue }

-- `update` on `Message::StateUpdated`
unfoldable pub state_updated : Scheduler → AppState → ℕ → Scheduler × List Response
unfolding update_now
state_updated s app clock =
    let options = bool_ne app.relative_timestamps s.use_relative in
    let correction = not (s.time_correction == app.time_correction) in
    let s₁ = if options then take_options s app else s in
    let s₂ = if correction then take_correction s₁ app clock else s₁ in
    (s₂, if options || correction then send_each s₂ s₂.queue else [])

-- A round of the loop on `Message::Tick`: the first tick is refreshed, if it is due.
abbrev pub tick_round :
    Scheduler
    → List Response
    → List Tick
    → (Scheduler → List Response → Option (Scheduler × List Response))
    → Option (Scheduler × List Response)
tick_round s sent [] rest = some (s, sent)
tick_round s sent (t ∷ queue) rest =
    let next = refresh_tick (record s { queue = queue }) t in
    let more = rest next.0 (sent ++ next.1) in
    if ltb s.now t.pending_on then some (s, sent) else more

-- The loop, none where the fuel runs out.
unfoldable pub tick_loop : ℕ → Scheduler → List Response → Option (Scheduler × List Response)
unfolding refresh_tick
tick_loop zero s sent = none
tick_loop (suc fuel) s sent = tick_round s sent s.queue (tick_loop fuel)

-- `update` on `Message::Tick`
unfoldable pub tick : ℕ → Scheduler → ℕ → Option (Scheduler × List Response)
unfolding update_now tick_loop
tick fuel s clock = tick_loop fuel (update_now s clock) []

pub data Request : Type 0 where
  register change_timestamp : ℕ → Request

-- `handle_input`
unfoldable pub handle_input : Scheduler → Request → ℕ → Scheduler × List Response
unfolding refresh_tick remove
handle_input s (register time) id = refresh_tick s (new_tick id time s.now)
handle_input s (change_timestamp time) id = refresh_tick (remove s id) (new_tick id time s.now)

-- `disconnected`
unfoldable pub disconnected : Scheduler → ℕ → Scheduler
unfolding remove
disconnected s id = remove s id
