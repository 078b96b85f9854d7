-- ===== src/Server/Client/Joins.antt =====
-- What holds of the state through the joined steps of a handler.
use shamichan.Prelude.{Option, none, some, Bool, true, false}
use shamichan.Server.Client.{MessageHandler, Outcome, Error, and_then, ask, assert}

-- However a step ends, this holds of the state that it leaves.
pub record Ends (P : MessageHandler → Type 0) (o : Outcome) : Type 0 where
  pub holds : P o.0

module _ {P : MessageHandler → Type 0} where
  pub and_then-Ends :
      {o : Outcome} {f : MessageHandler → Outcome}
      → Ends P o
      → ((s : MessageHandler) → P s → Ends P (f s))
      → Ends P (and_then o f)
  unfolding and_then
  and_then-Ends {o = (s, some e)} h k = record { holds = h.holds }
  and_then-Ends {o = (s, none)} h k = k s h.holds

  pub ask-Ends :
      {A : Type 0} (o : Option A) (e : Error) (s : MessageHandler) (f : A → Outcome)
      → P s
      → ((a : A) → Ends P (f a))
      → Ends P (ask o e s f)
  unfolding ask
  ask-Ends none e s f h k = record { holds = h }
  ask-Ends (some a) e s f h k = k a

  pub assert-Ends : (b : Bool) (e : Error) (s : MessageHandler) → P s → Ends P (assert b e s)
  unfolding assert
  assert-Ends true e s h = record { holds = h }
  assert-Ends false e s h = record { holds = h }
