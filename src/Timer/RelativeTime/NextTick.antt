-- ===== src/Timer/RelativeTime/NextTick.antt =====
-- When a tick is due next (`Tick::set_next_tick`).
use shamichan.Prelude.{ℕ, ◌+◌, ◌-◌, ◌%◌, ◌^◌, ◌≤◌, ◌<◌, ◌≡◌, refl, arith}
use shamichan.Timer.RelativeTime.{
  TimeUnit, Tick, seconds, minutes, hours, days, months, years, divisor_loop, divisor, new,
  set_next_tick,
}
use shamichan.Timer.RelativeTime.Exact.{length}

divisor-length : (u : TimeUnit) → divisor u ≡ length u
unfolding divisor_loop
divisor-length seconds = refl
divisor-length _ = refl

floor_next :
    (now : ℕ) (u : TimeUnit)
    → now + length years < 2 ^ 32
    → let next = (now - now % length u + length u) % 2 ^ 32 in
      (now < next) × (next ≤ now + length u) × (next % length u ≡ 0)
floor_next now seconds h = omega arith
floor_next now minutes h = omega arith
floor_next now hours h = omega arith
floor_next now days h = omega arith
floor_next now months h = omega arith
floor_next now years h = omega arith

-- The next tick is due after now, at most one unit later and at a whole multiple of the unit; it
-- carries the relative time of that moment, and its subscriber and value stay. The time must leave
-- room for a year of twelve 30-day months below 2 ^ 32.
pub set_next_tick_lem :
    (t : Tick) (now : ℕ)
    → now + length years < 2 ^ 32
    → let t' = set_next_tick t now in
      (now < t'.pending_on)
      × (t'.pending_on ≤ now + length t.diff.unit)
      × (t'.pending_on % length t.diff.unit ≡ 0)
      × (t'.diff ≡ new t'.pending_on t.val)
      × (t'.id ≡ t.id)
      × (t'.val ≡ t.val)
unfolding set_next_tick
set_next_tick_lem t now h =
    let (a, b, c) = floor_next now t.diff.unit h in
    rw (divisor-length t.diff.unit) (a, b, c, refl, refl, refl)
