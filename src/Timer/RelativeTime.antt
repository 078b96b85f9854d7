-- ===== src/Timer/RelativeTime.antt =====
-- `Unit`, `UNITS`, `RelativeTime` and `Tick` of client/src/time/scheduler.rs. A `u32` is its value.
pub mod Exact
pub mod NextTick
use shamichan.Prelude.{
  ℕ, ◌+◌, ◌-◌, ◌*◌, ◌/◌, ◌%◌, ◌^◌, List, [], ◌∷◌, Bool, true, false, if◌then◌else◌, ltb,
}

pub data TimeUnit : Type 0 where
  seconds minutes hours days months years : TimeUnit

-- The derived equality.
abbrev pub unit_eq : TimeUnit → TimeUnit → Bool
unit_eq seconds seconds = true
unit_eq minutes minutes = true
unit_eq hours hours = true
unit_eq days days = true
unit_eq months months = true
unit_eq years years = true
unit_eq _ _ = false

-- `UNITS`
abbrev pub units : List (TimeUnit × ℕ)
units = (seconds, 60) ∷ (minutes, 60) ∷ (hours, 24) ∷ (days, 30) ∷ (months, 12) ∷ []

pub record RelativeTime : Type 0 where
  pub is_future : Bool
  pub duration : ℕ
  pub unit : TimeUnit

-- `time as u8`
abbrev pub pack : Bool → ℕ → TimeUnit → RelativeTime
pack is_future time unit = record { is_future = is_future; duration = time % 2 ^ 8; unit = unit }

-- The loop over the units, `time` in the unit at hand.
unfoldable pub relative_loop : List (TimeUnit × ℕ) → Bool → ℕ → RelativeTime
relative_loop [] is_future time = pack is_future time years
relative_loop ((unit, max) ∷ rest) is_future time =
    let larger = relative_loop rest is_future (time / max) in
    if ltb time max then pack is_future time unit else larger

-- `RelativeTime::new`: the difference is taken in 64 bits.
unfoldable pub new : ℕ → ℕ → RelativeTime
unfolding relative_loop
new now val =
    if ltb now val
    then relative_loop units true (val - now)
    else relative_loop units false (now - val)

pub record Tick : Type 0 where
  pub id : ℕ
  pub val : ℕ
  pub pending_on : ℕ
  pub diff : RelativeTime

-- `Tick::new`
unfoldable pub new_tick : ℕ → ℕ → ℕ → Tick
unfolding new
new_tick id val now = record { id = id; val = val; pending_on = now; diff = new now val }

-- The loop that multiplies up to the tick's unit, in 32 bits.
unfoldable pub divisor_loop : List (TimeUnit × ℕ) → TimeUnit → ℕ → ℕ
divisor_loop [] unit divisor = divisor
divisor_loop ((u, max) ∷ rest) unit divisor =
    let larger = divisor_loop rest unit (divisor * max % 2 ^ 32) in
    if unit_eq unit u then divisor else larger

abbrev pub divisor : TimeUnit → ℕ
unfolding divisor_loop
divisor unit = divisor_loop units unit 1

-- `Tick::set_next_tick`
unfoldable pub set_next_tick : Tick → ℕ → Tick
unfolding divisor_loop new
set_next_tick t now =
    let next = (now - now % divisor t.diff.unit + divisor t.diff.unit) % 2 ^ 32 in
    record t { diff = new next t.val; pending_on = next }
