-- ===== src/Feeds/BodyFlusher.antt =====
-- `BodyFlusher`, which persists the bodies of open posts (server/src/body/persist_open.rs).
pub mod Latest
use shamichan.Prelude.{ℕ, List, [], ◌∷◌, Bool, true, false, if◌then◌else◌}
use shamichan.Prelude.Eq.{ℕ_eq}
use shamichan.Collections.HashMap
use shamichan.Collections.HashMap.{HashMap}
use shamichan.PostBody.Node.{Node}

pub record BodyFlusher : Type 0 where
  pub bodies : HashMap ℕ Node
  pub pending_pulse : Bool

-- `BodyFlusher::default`
unfoldable pub default : BodyFlusher
default = record { bodies = []; pending_pulse = false }

-- `schedule_pulse`, and whether a pulse is sent
unfoldable pub schedule_pulse : BodyFlusher → BodyFlusher × Bool
schedule_pulse f = if f.pending_pulse then (f, false) else (record f { pending_pulse = true }, true)

-- `HashMap::extend`
abbrev pub extend : HashMap ℕ Node → List (ℕ × Node) → HashMap ℕ Node
extend m [] = m
extend m ((id, body) ∷ bodies) = extend (HashMap.insert m id body) bodies

-- `Handler<PersistBodies>`
unfoldable pub persist_bodies : BodyFlusher → List (ℕ × Node) → BodyFlusher × Bool
unfolding schedule_pulse
persist_bodies f bodies =
    let (f', sent) = schedule_pulse f in (record f' { bodies = extend f'.bodies bodies }, sent)

-- `Handler<Pulse>`, with what `write_open_post_bodies` answers: the flusher, the bodies that it gives
-- to the database, and whether they are written or the handler returns the error. The bodies are
-- taken before the write, so that they are not in the flusher any more where it fails.
unfoldable pub pulse : (HashMap ℕ Node → Bool) → BodyFlusher → BodyFlusher × HashMap ℕ Node × Bool
pulse write f = (record { bodies = []; pending_pulse = false }, f.bodies, write f.bodies)
