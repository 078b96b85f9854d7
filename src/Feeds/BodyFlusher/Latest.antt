-- ===== src/Feeds/BodyFlusher/Latest.antt =====
-- The last body of each post is written (server/src/body/persist_open.rs).
use shamichan.Prelude.{
  ℕ, ◌≡◌, refl, ap, ◌∙◌, List, [], ◌∷◌, Option, none, some, Bool, true, false, if◌then◌else◌,
  Bool-cases, inl, inr, ◌⊎◌, ◌||◌, not, sym, subst,
}
use shamichan.Prelude.Eq.{eq, ℕ_eq}
use shamichan.Collections.HashMap
use shamichan.Collections.HashMap.{HashMap, get-insert}
use shamichan.PostBody.Node.{Node}
use shamichan.Feeds.BodyFlusher.{
  BodyFlusher, default, schedule_pulse, extend, persist_bodies, pulse,
}

-- A message with bodies, or a pulse with whether the database takes the batch.
pub data Event : Type 0 where
  persists : List (ℕ × Node) → Event
  pulses : Bool → Event

-- The flusher and the batches that the database took, the newest first.
pub record System : Type 0 where
  pub flusher : BodyFlusher
  pub written : List (HashMap ℕ Node)

abbrev pub pulsed : System → BodyFlusher × HashMap ℕ Node × Bool → System
pulsed s (f, batch, taken) = record {
  flusher = f;
  written = if taken then batch ∷ s.written else s.written;
}

unfoldable pub step : System → Event → System
unfolding persist_bodies pulse
step s (persists bodies) = record s { flusher = (persist_bodies s.flusher bodies).0 }
step s (pulses taken) = pulsed s (pulse (λ batch. taken) s.flusher)

abbrev pub run : System → List Event → System
run s [] = s
run s (e ∷ es) = run (step s e) es

abbrev pub start : System
start = record { flusher = default; written = [] }

abbrev pub or_else : Option Node → Option Node → Option Node
or_else (some b) o = some b
or_else none o = o

-- The body of the post in the newest batch that has it.
abbrev pub newest : ℕ → List (HashMap ℕ Node) → Option Node
newest id [] = none
newest id (batch ∷ rest) = or_else (HashMap.get batch id) (newest id rest)

-- One post: the body that is buffered and the one that is in the database.
pub record Post : Type 0 where
  pub buffered : Option Node
  pub stored : Option Node

abbrev pub post : ℕ → System → Post
post id s = record { buffered = HashMap.get s.flusher.bodies id; stored = newest id s.written }

-- The last body of the post in a message.
abbrev pub last_in : ℕ → List (ℕ × Node) → Option Node → Option Node
last_in id [] o = o
last_in id ((k, b) ∷ bodies) o = last_in id bodies (if eq k id then some b else o)

-- What the events are to do to one post: a pulse moves the body from the buffer to the database, and
-- loses it where the database fails.
abbrev pub after : ℕ → List Event → Post → Post
after id [] p = p
after id (persists bodies ∷ es) p =
    after id es (record p { buffered = last_in id bodies p.buffered })
after id (pulses true ∷ es) p =
    after id es (record { buffered = none; stored = or_else p.buffered p.stored })
after id (pulses false ∷ es) p = after id es (record p { buffered = none })

-- The last body of the post in all messages.
abbrev pub last : ℕ → List Event → Option Node → Option Node
last id [] o = o
last id (persists bodies ∷ es) o = last id es (last_in id bodies o)
last id (pulses taken ∷ es) o = last id es o

-- Whether the database fails at a pulse.
abbrev pub fails : List Event → Bool
fails [] = false
fails (persists bodies ∷ es) = fails es
fails (pulses taken ∷ es) = not taken || fails es

abbrev pub known : Post → Option Node
known p = or_else p.buffered p.stored

or_else_if :
    (c : Bool) (b : Node) (x o : Option Node)
    → or_else (if c then some b else x) o ≡ (if c then some b else or_else x o)
or_else_if true b x o = refl
or_else_if false b x o = refl

extend-last_in :
    (m : HashMap ℕ Node) (bodies : List (ℕ × Node)) (id : ℕ)
    → HashMap.get (extend m bodies) id ≡ last_in id bodies (HashMap.get m id)
extend-last_in m [] id = refl
extend-last_in m ((k, b) ∷ bodies) id =
    extend-last_in (HashMap.insert m k b) bodies id ∙ ap (last_in id bodies) (get-insert m k id b)

-- Where no pulse is to come, nothing is buffered.
abbrev pub Waits : Bool → HashMap ℕ Node → Type 0
Waits true bodies = Unit {0}
Waits false bodies = bodies ≡ []

abbrev pub IsWaiting : System → Type 0
IsWaiting s = Waits s.flusher.pending_pulse s.flusher.bodies

schedule_pulse_lem :
    (f : BodyFlusher)
    → ((schedule_pulse f).0.bodies ≡ f.bodies) × ((schedule_pulse f).0.pending_pulse ≡ true)
unfolding schedule_pulse
schedule_pulse_lem f = elim (Bool-cases f.pending_pulse) [
  | inl e ↦ rw e (refl, refl)
  | inr e ↦ rw e (refl, refl)
]

run_lem :
    (s : System) (es : List Event) (id : ℕ)
    → IsWaiting s
    → (post id (run s es) ≡ after id es (post id s)) × IsWaiting (run s es)
unfolding step HashMap.get
run_lem s [] id w = (refl, w)
run_lem s (persists bodies ∷ es) id w =
    let t = step s (persists bodies) in
    let (same, pending) = schedule_pulse_lem s.flusher in
    let (a, b) = run_lem t es id (rw pending tt) in
    let e : HashMap.get t.flusher.bodies id ≡ last_in id bodies (HashMap.get s.flusher.bodies id) =
      ap (λ m. HashMap.get (extend m bodies) id) same ∙ extend-last_in s.flusher.bodies bodies id in
    (a ∙ ap (λ o. after id es (record { buffered = o; stored = newest id s.written })) e, b)
run_lem s (pulses true ∷ es) id w = run_lem (step s (pulses true)) es id refl
run_lem s (pulses false ∷ es) id w = run_lem (step s (pulses false)) es id refl

last_in_or :
    (id : ℕ) (bodies : List (ℕ × Node)) (b o : Option Node)
    → last_in id bodies (or_else b o) ≡ or_else (last_in id bodies b) o
last_in_or id [] b o = refl
last_in_or id ((k, n) ∷ bodies) b o =
    ap (last_in id bodies) (sym (or_else_if (eq k id) n b o))
    ∙ last_in_or id bodies (if eq k id then some n else b) o

-- Where the database does not fail, what is known of a post is its last body.
known-after :
    (id : ℕ) (es : List Event) (p : Post)
    → (fails es ≡ true) ⊎ (known (after id es p) ≡ last id es (known p))
known-after id [] p = inr refl
known-after id (persists bodies ∷ es) p =
    elim (known-after id es (record p { buffered = last_in id bodies p.buffered })) [
      | inl f ↦ inl f
      | inr e ↦ inr (e ∙ ap (last id es) (sym (last_in_or id bodies p.buffered p.stored)))
    ]
known-after id (pulses true ∷ es) p =
    known-after id es (record { buffered = none; stored = or_else p.buffered p.stored })
known-after id (pulses false ∷ es) p = inl refl

-- However messages with bodies and pulses follow each other, and whichever pulses the database
-- refuses: of each post, what is buffered and what was written last are what the events are to make
-- of it, by which a message sets what is buffered, and a pulse empties it, into the database or, where
-- that fails, into nothing; if no write fails, the last body of the post is buffered, or else is
-- what was written last; and where no pulse is to come, nothing is buffered.
pub run-last :
    (es : List Event) (id : ℕ)
    → (post id (run start es) ≡ after id es (record { buffered = none; stored = none }))
      × ((fails es ≡ true) ⊎ (known (post id (run start es)) ≡ last id es none))
      × IsWaiting (run start es)
unfolding default HashMap.get
run-last es id =
    let p : Post = record { buffered = none; stored = none } in
    let (e, w) = run_lem start es id refl in
    let k : (fails es ≡ true) ⊎ (known (post id (run start es)) ≡ last id es none) =
      subst (λ q. (fails es ≡ true) ⊎ (known q ≡ last id es none)) (sym e) (known-after id es p) in
    (e, k, w)
