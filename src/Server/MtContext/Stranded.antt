-- ===== src/Server/MtContext/Stranded.antt =====
-- What becomes of pending messages when the scheduler handles `Done` before the task that sent it has
-- dropped the lock (server/src/mt_context.rs).
use shamichan.Prelude.{◌≡◌, refl, List, [], ◌∷◌, none, some, Bool, true, false}
use shamichan.Server.MtContext.{ActorState, handle_done, try_run_pending}
use shamichan.Server.MtContext.System.{System, Outcome, Event, step, run}

module _ {ℓ} {M : Type ℓ} where
  -- Nothing happens of itself any more: no task runs or holds the lock, and no `Done` is to come.
  abbrev pub IsIdle : System M → Type ℓ
  IsIdle x =
      ((o : Outcome) → step (Event.handles o) x ≡ none)
      × (step Event.finishes x ≡ none)
      × (step Event.releases x ≡ none)
      × (step Event.receives x ≡ none)

  -- The task has sent `Done` behind its whole batch, and the scheduler runs.
  abbrev pub sent_done : Bool → Bool → Bool → List M → List M → System M
  sent_done own left locked pending handled = record {
    scheduler = record { state = ActorState.running; stopped_self = own; pending = pending };
    locked = locked;
    task = none;
    mailbox = record { unprocessed = []; stopped_self = left } ∷ [];
    handled = handled;
    terminated = false;
  }

  -- A task has sent `Done`, still holds the lock, and messages are pending. Where the scheduler
  -- handles `Done` before the lock is dropped, they stay pending, and nothing is left to happen that
  -- would have them handled, until another message is queued; where the lock is dropped first, all of
  -- them go to a new task.
  pub stranded :
      (own left : Bool) (m : M) (pending handled : List M)
      → let x = sent_done own left true (m ∷ pending) handled in
        let y = record x { locked = false; mailbox = [] } in
        let z : System M = record x {
          scheduler = record x.scheduler { pending = [] };
          task = some (record { rest = m ∷ pending; stopped_self = false; leaves = false });
          mailbox = [];
        } in
        (run (Event.receives ∷ Event.releases ∷ []) x ≡ some y)
        × IsIdle y
        × (run (Event.releases ∷ Event.receives ∷ []) x ≡ some z)
  unfolding run step try_run_pending handle_done
  stranded own left m pending handled = (refl, ((λ o. refl), refl, refl, refl), refl)
