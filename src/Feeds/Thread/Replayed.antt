-- ===== src/Feeds/Thread/Replayed.antt =====
-- The patches of open bodies that go to the clients (server/src/feeds/thread/mod.rs).
pub mod Current
use shamichan.Prelude.{
  subst, ℕ, ◌≡◌, ◌≢◌, refl, ap, sym, ◌∙◌, List, [], ◌∷◌, Option, none, some, true, false,
  if◌then◌else◌, ◌==◌, arith, Bool-cases, inl, inr,
}
use shamichan.Prelude.Eq.{ℕ_eq}
use shamichan.Collections.HashMap
use shamichan.Collections.HashMap.{HashMap, get-insert}
use shamichan.PostBody.Node.{Node, Patch}
use shamichan.PostBody.Diff.{diff, patch}
use shamichan.PostBody.Diff.RoundTrip.{Fits, patch-diff}
use shamichan.Server.MessageCacher.{MessageCacher}
use shamichan.Server.MessageCacher
use shamichan.Payloads.{Post}
use shamichan.Feeds.Bundle.{Message, Items, Bundle, deref_mut}
use shamichan.Feeds.Thread.{Env, Bodies}
use shamichan.Feeds.Thread.Pulse.{
  Mutation, to_diff, and_open, mutations, and_mutation, set_bodies, set_in, with_body, process,
}

-- What a client that has the body `n` of the post `k` has after the patches.
abbrev pub replay : List Mutation → ℕ → Node → Node
replay [] k n = n
replay (m ∷ ms) k n = replay ms k (if m.id == k then (patch m.patch n).0 else n)

abbrev pub body_of : {A : Type 0} → Option (MessageCacher Post A) → Option Node
body_of none = none
body_of (some c) = some c.val.body

abbrev pub body_at : Items Post → ℕ → Option Node
body_at m k = body_of (HashMap.get m k)

abbrev pub replay_at : List Mutation → ℕ → Option Node → Option Node
replay_at ms k none = none
replay_at ms k (some n) = some (replay ms k n)

-- The texts of the bodies of a page are of lengths that a patch can hold.
abbrev pub AllFit : Items Post → Type 0
AllFit m = (k : ℕ) (n : Node) → body_at m k ≡ some n → Fits n

-- No post is pending twice.
abbrev pub Misses : ℕ → Bodies → Type 0
Misses k [] = Unit {0}
Misses k ((j, body) ∷ rest) = (j ≢ k) × Misses k rest

abbrev pub AreDistinct : Bodies → Type 0
AreDistinct [] = Unit {0}
AreDistinct ((k, body) ∷ rest) = Misses k rest × AreDistinct rest

abbrev pub Spares : ℕ → List Mutation → Type 0
Spares k [] = Unit {0}
Spares k (m ∷ ms) = (m.id ≢ k) × Spares k ms

-- Each mutation leads from the body that the page has to the new one, and is the only one of its post.
abbrev Leads : Items Post → Mutation → Type 0
Leads items m = (n : Node) → body_at items m.id ≡ some n → patch m.patch n ≡ (m.body, none)

abbrev AllLead : Items Post → List Mutation → Type 0
AllLead items [] = Unit {0}
AllLead items (m ∷ ms) = Leads items m × Spares m.id ms × AllLead items ms

replay_at_cons :
    (m : Mutation) (ms : List Mutation) (k : ℕ) (o : Option Node)
    → replay_at (m ∷ ms) k o ≡ replay_at ms k (replay_at (m ∷ []) k o)
replay_at_cons m ms k none = refl
replay_at_cons m ms k (some n) = refl

replay_at_other : (m : Mutation) (k : ℕ) (o : Option Node) → m.id ≢ k → replay_at (m ∷ []) k o ≡ o
unfolding patch
replay_at_other m k none h = refl
replay_at_other m k (some n) h = let e : (m.id == k) ≡ false = ground arith in rw e refl

pub some_inj : {A : Type 0} {n k : A} → some n ≡ some k → n ≡ k
some_inj e = ground (arith, e)

module _ (env : Env) where
  abbrev new_of : MessageCacher Post Message → Node → MessageCacher Post Message
  new_of c body = MessageCacher.deref_mut env.encode_post (with_body body) c

  set_in-same :
      (items : Items Post) (m : Mutation) (o : Option (MessageCacher Post Message))
      → HashMap.get items m.id ≡ o
      → ((n : Node) → body_of o ≡ some n → patch m.patch n ≡ (m.body, none))
      → body_at (set_in env items m.id m.body o) m.id ≡ replay_at (m ∷ []) m.id (body_of o)
  unfolding MessageCacher.deref_mut
  set_in-same items m none e h = ap body_of e
  set_in-same items m (some c) e h =
      let self : (m.id == m.id) ≡ true = ground arith in
      ap body_of (get-insert items m.id m.id _)
      ∙ ap (λ b. body_of (if b then some (new_of c m.body) else HashMap.get items m.id)) self
      ∙ ap some (sym (ap (λ r. r.0) (h c.val.body refl)))
      ∙ ap (λ b. some (if b then (patch m.patch c.val.body).0 else c.val.body)) (sym self)

  set_in-other :
      (items : Items Post) (m : Mutation) (k : ℕ) (o : Option (MessageCacher Post Message))
      → (m.id == k) ≡ false
      → body_at (set_in env items m.id m.body o) k ≡ body_at items k
  set_in-other items m k none e = refl
  set_in-other items m k (some c) e =
      ap body_of (get-insert items m.id k _)
      ∙ ap (λ b. body_of (if b then some (new_of c m.body) else HashMap.get items k)) e

  -- One new body, as a client sees it.
  set_in-replay_at :
      (items : Items Post) (m : Mutation) (k : ℕ)
      → Leads items m
      → body_at (set_in env items m.id m.body (HashMap.get items m.id)) k
        ≡ replay_at (m ∷ []) k (body_at items k)
  set_in-replay_at items m k h = elim (Bool-cases (m.id == k)) [
    | inl e ↦
        let i : m.id ≡ k = ground arith in
        subst
          (λ j.
            body_at (set_in env items m.id m.body (HashMap.get items m.id)) j
            ≡ replay_at (m ∷ []) j (body_at items j))
          i (set_in-same items m (HashMap.get items m.id) refl h)
    | inr e ↦
        set_in-other items m k (HashMap.get items m.id) e
        ∙ sym (replay_at_other m k (body_at items k) (λ j. ground arith))
  ]

  set_in-AllLead :
      (items : Items Post) (m : Mutation) (ms : List Mutation)
      → Spares m.id ms
      → AllLead items ms
      → AllLead (set_in env items m.id m.body (HashMap.get items m.id)) ms
  set_in-AllLead items m [] s h = tt
  set_in-AllLead items m (x ∷ ms) s h = (
    λ n e.
        h.0 n (sym (set_in-other items m x.id (HashMap.get items m.id) (ground (arith, s.0))) ∙ e),
    h.1,
    set_in-AllLead items m ms s.1 h.2,
  )

  set_bodies-replay :
      (ms : List Mutation) (p : Bundle Post) (k : ℕ)
      → AllLead p.items ms
      → body_at (set_bodies env ms p).items k ≡ replay_at ms k (body_at p.items k)
  unfolding set_bodies deref_mut
  set_bodies-replay [] p k h = self (body_at p.items k)
    where
      self : (o : Option Node) → o ≡ replay_at [] k o
      self none = refl
      self (some n) = refl
  set_bodies-replay (m ∷ ms) p k h =
      set_bodies-replay ms
        (deref_mut (λ items. set_in env items m.id m.body (HashMap.get items m.id)) p) k
        (set_in-AllLead p.items m ms h.1 h.2)
      ∙ ap (replay_at ms k) (set_in-replay_at p.items m k h.0)
      ∙ sym (replay_at_cons m ms k (body_at p.items k))

  and_mutation-Spares :
      (k id : ℕ) (body : Node) (o : Option Patch) (ms : List Mutation)
      → id ≢ k
      → Spares k ms
      → Spares k (and_mutation env id body o ms)
  and_mutation-Spares k id body none ms ne h = h
  and_mutation-Spares k id body (some q) ms ne h = (ne, h)

  pub mutations-Spares :
      (items : Items Post) (k : ℕ) (pending : Bodies)
      → Misses k pending
      → Spares k (mutations env (to_diff items pending))
  unfolding mutations to_diff
  mutations-Spares items k [] h = tt
  mutations-Spares items k ((id, body) ∷ pending) h =
      at (HashMap.get items id) (mutations-Spares items k pending h.1)
    where
      at :
          (o : Option (MessageCacher Post Message))
          → Spares k (mutations env (to_diff items pending))
          → Spares k (mutations env (and_open id body o (to_diff items pending)))
      at none ih = ih
      at (some c) ih = elim (Bool-cases c.val.is_open) [
        | inl e ↦ rw e (
            and_mutation-Spares k id (env.parse body true) (diff c.val.body (env.parse body true)) _
              h.0 ih)
        | inr e ↦ rw e ih
      ]

  and_mutation-AllLead :
      (items : Items Post) (id : ℕ) (old body : Node) (o : Option Patch) (ms : List Mutation)
      → diff old body ≡ o
      → Fits old
      → body_at items id ≡ some old
      → Spares id ms
      → AllLead items ms
      → AllLead items (and_mutation env id body o ms)
  and_mutation-AllLead items id old body none ms e fits i s h = h
  and_mutation-AllLead items id old body (some q) ms e fits i s h =
      (λ n j. let k : n ≡ old = some_inj (sym j ∙ i) in rw k (patch-diff old body q fits e), s, h)

  mutations-AllLead :
      (items : Items Post) (pending : Bodies)
      → AllFit items
      → AreDistinct pending
      → AllLead items (mutations env (to_diff items pending))
  unfolding mutations to_diff
  mutations-AllLead items [] f d = tt
  mutations-AllLead items ((id, body) ∷ pending) f d =
      at (HashMap.get items id) refl (mutations-AllLead items pending f d.1)
    where
      at :
          (o : Option (MessageCacher Post Message))
          → HashMap.get items id ≡ o
          → AllLead items (mutations env (to_diff items pending))
          → AllLead items (mutations env (and_open id body o (to_diff items pending)))
      at none e ih = ih
      at (some c) e ih = elim (Bool-cases c.val.is_open) [
        | inl b ↦ rw b (
            and_mutation-AllLead items id c.val.body (env.parse body true)
              (diff c.val.body (env.parse body true)) _ refl (f id _ (ap body_of e)) (ap body_of e)
              (mutations-Spares items id pending d.0) ih)
        | inr b ↦ rw b ih
      ]

  -- The bodies that the feed keeps of a page after the pending open bodies are processed are those
  -- that a client has that had the page's bodies and applies the patches of the batch in their order,
  -- where no post is pending twice, and each text of the page's bodies is below 2 ^ 16 characters.
  pub process-replay :
      (p : Bundle Post) (pending : Bodies) (k : ℕ)
      → AllFit p.items
      → AreDistinct pending
      → body_at (process env p pending).0.items k
        ≡ replay_at (process env p pending).1 k (body_at p.items k)
  unfolding process
  process-replay p pending k f d =
      set_bodies-replay (mutations env (to_diff p.items pending)) p k
        (mutations-AllLead p.items pending f d)
