-- ===== src/Timer/Queue.antt =====
-- The queue of client/src/time/queue.rs. A chain of boxed nodes is the list of their values, and the
-- two iterators run over that list.
pub mod Order
use shamichan.Prelude.{List, [], ◌∷◌, Option, none, some, Bool, if◌then◌else◌}

-- `Queue::default`
abbrev pub empty {ℓ} : {T : Type ℓ} → List T
empty = []

module _ {ℓ} {T : Type ℓ} where
  -- `insert_before` and `Queue::insert`; `lt` is the values' `PartialOrd`.
  unfoldable pub insert : (T → T → Bool) → List T → T → List T
  insert lt [] val = val ∷ []
  insert lt (current ∷ next) val =
      if lt val current then val ∷ current ∷ next else current ∷ insert lt next val

  -- `Queue::peek`
  unfoldable pub peek : List T → Option T
  peek [] = none
  peek (val ∷ next) = some val

  -- `Queue::pop`: the queue after the call, and the value.
  unfoldable pub pop : List T → List T × Option T
  pop [] = ([], none)
  pop (val ∷ next) = (next, some val)

  -- `remove` and `Queue::remove`, with the key's comparison to a value: the first match goes.
  unfoldable pub remove : (T → Bool) → List T → List T
  remove key [] = []
  remove key (val ∷ next) = if key val then next else val ∷ remove key next

  -- A loop over `Queue::iter_mut` that writes `f` of each value.
  unfoldable pub update_each : (T → T) → List T → List T
  update_each f [] = []
  update_each f (val ∷ next) = f val ∷ update_each f next
