-- ===== src/Examples/Timer.antt =====
-- Times a minute, a day and years apart, and a queue with one due and one later tick.
use shamichan.Prelude.{◌+◌, ◌≡◌, ◌<◌, ◌^◌, [], ◌∷◌, some, true, false, ltb, arith}
use shamichan.Timer.RelativeTime
use shamichan.Timer.RelativeTime.{RelativeTime, Tick, TimeUnit, set_next_tick, pack}
use shamichan.Timer.RelativeTime.Exact.{Shows, distance, new-Shows}
use shamichan.Timer.RelativeTime.Exact
use shamichan.Timer.Scheduler.{Scheduler, tick, update_now, send_each}
use shamichan.Timer.Scheduler.Ticks.{due, Served, tick_lem}

new-Shows_example :
    ((RelativeTime.new 100000 400000).is_future ≡ ltb 100000 400000)
    × Shows (RelativeTime.new 100000 400000) (distance 100000 400000)
new-Shows_example = new-Shows 100000 400000 (omega arith) (omega arith)

abbrev day_old : Tick
day_old = record { id = 4; val = 1000; pending_on = 172800; diff = pack false 1 TimeUnit.days }

abbrev later : Tick
later = record { id = 5; val = 1000; pending_on = 999999; diff = pack false 1 TimeUnit.days }

abbrev agent : Scheduler
agent = record { use_relative = true; now = 0; time_correction = 0; queue = day_old ∷ later ∷ [] }

in_time : (update_now agent 200000).now + Exact.length TimeUnit.years < 2 ^ 32
unfolding update_now
in_time = omega arith

tick_lem_example :
    (s' : Scheduler) × (tick 3 agent 200000
      ≡ some (s', send_each agent (due (update_now agent 200000).now agent.queue)))
    × Served (update_now agent 200000) s'
tick_lem_example = tick_lem 3 agent 200000 in_time ((omega arith, tt), (tt, tt)) (omega arith)
