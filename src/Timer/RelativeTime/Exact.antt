-- ===== src/Timer/RelativeTime/Exact.antt =====
-- The relative time that is shown is exact in its unit (`RelativeTime::new`).
use shamichan.Prelude.{
  ℕ, ◌+◌, ◌-◌, ◌*◌, ◌/◌, ◌%◌, ◌^◌, ◌≤◌, ◌<◌, ◌≡◌, refl, List, [], ◌∷◌, Bool, true, false,
  if◌then◌else◌, ltb, arith, Bool-cases, inl, inr, ◌⊎◌, tests,
}
use shamichan.Timer.RelativeTime.{
  TimeUnit, RelativeTime, seconds, minutes, hours, days, months, years, units, relative_loop, pack,
  new,
}

-- The seconds of a unit, and the number of units that make the next one; years have no next.
abbrev pub length : TimeUnit → ℕ
length seconds = 1
length minutes = 60
length hours = 3600
length days = 86400
length months = 2592000
length years = 31104000

abbrev pub limit : TimeUnit → ℕ
limit seconds = 60
limit minutes = 60
limit hours = 24
limit days = 30
limit months = 12
limit years = 139

-- The distance in seconds fits the shown duration, and the duration fits its unit and its byte.
pub record Shows (r : RelativeTime) (distance : ℕ) : Type 0 where
  pub at_least : r.duration * length r.unit ≤ distance
  pub less : distance < (r.duration + 1) * length r.unit
  pub below : r.duration < limit r.unit
  pub largest : (r.unit ≡ seconds) ⊎ (0 < r.duration)

-- One branch: the distance divided down to the unit.
shown :
    (b : Bool) (d n : ℕ) (u : TimeUnit)
    → (n * length u ≤ d) × (d < (n + 1) * length u) × (n < limit u) × (limit u ≤ 139)
    → (u ≡ seconds) ⊎ (0 < n)
    → Shows (pack b n u) d
shown b d n u (lo, hi, fits, small) o =
    let byte : n % 2 ^ 8 ≡ n = omega arith in
    record { at_least = rw byte lo; less = rw byte hi; below = rw byte fits; largest = rw byte o }

relative_loop-Shows : (b : Bool) (d : ℕ) → d < 2 ^ 32 → Shows (relative_loop units b d) d
unfolding relative_loop
relative_loop-Shows b d h = elim (Bool-cases (ltb d 60)) [
  | inl e ↦ rw e (shown b d d seconds (omega tests) (inl refl))
  | inr e ↦ rw e (elim (Bool-cases (ltb (d / 60) 60)) [
    | inl f ↦ rw f (shown b d (d / 60) minutes (omega tests) (inr (omega tests)))
    | inr f ↦ rw f (elim (Bool-cases (ltb (d / 60 / 60) 24)) [
      | inl g ↦ rw g (shown b d (d / 60 / 60) hours (omega tests) (inr (omega tests)))
      | inr g ↦ rw g (elim (Bool-cases (ltb (d / 60 / 60 / 24) 30)) [
        | inl k ↦ rw k (shown b d (d / 60 / 60 / 24) days (omega tests) (inr (omega tests)))
        | inr k ↦ rw k (elim (Bool-cases (ltb (d / 60 / 60 / 24 / 30) 12)) [
          | inl l ↦
              rw l (shown b d (d / 60 / 60 / 24 / 30) months (omega tests) (inr (omega tests)))
          | inr l ↦
              rw l (shown b d (d / 60 / 60 / 24 / 30 / 12) years (omega tests) (inr (omega tests)))
        ])
      ])
    ])
  ])
]

future : (us : List (TimeUnit × ℕ)) (b : Bool) (d : ℕ) → (relative_loop us b d).is_future ≡ b
unfolding relative_loop
future [] b d = refl
future ((u, max) ∷ us) b d = ground (arith, future us b (d / max))

abbrev pub distance : ℕ → ℕ → ℕ
distance now val = if ltb now val then val - now else now - val

-- For any two times the relative time lies in the future exactly when the value does, and it is the
-- largest unit of which the distance holds one, with the number of whole units in it: no byte
-- overflows, since the distance of two 32-bit times is below 139 years.
pub new-Shows :
    (now val : ℕ)
    → now < 2 ^ 32
    → val < 2 ^ 32
    → ((new now val).is_future ≡ ltb now val) × Shows (new now val) (distance now val)
unfolding new
new-Shows now val h k = elim (Bool-cases (ltb now val)) [
  | inl e ↦ rw e (future units true (val - now), relative_loop-Shows true (val - now) (omega arith))
  | inr e ↦
      rw e (future units false (now - val), relative_loop-Shows false (now - val) (omega arith))
]
