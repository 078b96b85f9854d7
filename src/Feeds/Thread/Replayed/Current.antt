-- ===== src/Feeds/Thread/Replayed/Current.antt =====
-- After a pulse the open posts that were pending have their new bodies
-- (server/src/feeds/thread/mod.rs).
use shamichan.Prelude.{
  subst, ℕ, ◌≡◌, refl, ap, sym, ◌∙◌, List, [], ◌∷◌, Option, none, some, true, false, if◌then◌else◌,
  ◌==◌, arith, Bool-cases, inl, inr,
}
use shamichan.Prelude.Eq.{ℕ_eq}
use shamichan.Collections.HashMap
use shamichan.PostBody.Node.{Node, Patch}
use shamichan.PostBody.Diff.{diff, patch}
use shamichan.PostBody.Diff.RoundTrip.{Fits, patch-diff, diff-none}
use shamichan.Server.MessageCacher.{MessageCacher}
use shamichan.Payloads.{Post}
use shamichan.Feeds.Bundle.{Message, Items, Bundle}
use shamichan.Feeds.Thread.{Env, Bodies}
use shamichan.Feeds.Thread.Pulse.{Mutation, to_diff, and_open, mutations, and_mutation, process}
use shamichan.Feeds.Thread.Replayed.{
  replay, replay_at, body_of, body_at, AllFit, AreDistinct, Misses, Spares, some_inj,
  mutations-Spares, process-replay,
}

-- Patches of other posts do not matter.
replay-Spares : (ms : List Mutation) (k : ℕ) (n : Node) → Spares k ms → replay ms k n ≡ n
replay-Spares [] k n h = refl
replay-Spares (m ∷ ms) k n h =
    let e : (m.id == k) ≡ false = ground (arith, h.0) in
    ap (λ b. replay ms k (if b then (patch m.patch n).0 else n)) e ∙ replay-Spares ms k n h.1

module _ (env : Env) where
  -- The patch of a post leads to its new body, and if there is none, the body is the new one.
  and_mutation-replay :
      (k : ℕ) (old body : Node) (o : Option Patch) (ms : List Mutation)
      → diff old body ≡ o
      → Fits old
      → Spares k ms
      → replay (and_mutation env k body o ms) k old ≡ body
  and_mutation-replay k old body none ms e fits h =
      replay-Spares ms k old h ∙ (diff-none old body fits).0 e
  and_mutation-replay k old body (some q) ms e fits h =
      let self : (k == k) ≡ true = ground arith in
      ap (λ b. replay ms k (if b then (patch q old).0 else old)) self
      ∙ replay-Spares ms k (patch q old).0 h
      ∙ ap (λ r. r.0) (patch-diff old body q fits e)

  and_mutation_other :
      (j k : ℕ) (body n : Node) (o : Option Patch) (ms : List Mutation)
      → (j == k) ≡ false
      → replay (and_mutation env j body o ms) k n ≡ replay ms k n
  and_mutation_other j k body n none ms e = refl
  and_mutation_other j k body n (some q) ms e =
      ap (λ b. replay ms k (if b then (patch q n).0 else n)) e

  and_open_other :
      (items : Items Post) (j k : ℕ) (text : List ℕ) (n : Node) (pending : Bodies)
      (o : Option (MessageCacher Post Message))
      → (j == k) ≡ false
      → replay (mutations env (and_open j text o (to_diff items pending))) k n
        ≡ replay (mutations env (to_diff items pending)) k n
  unfolding mutations
  and_open_other items j k text n pending none e = refl
  and_open_other items j k text n pending (some c) e = elim (Bool-cases c.val.is_open) [
    | inl i ↦
        rw i (
          and_mutation_other j k (env.parse text true) n (diff c.val.body (env.parse text true)) _
            e)
    | inr i ↦ rw i refl
  ]

  and_open_self :
      (items : Items Post) (k : ℕ) (text : List ℕ) (pending : Bodies)
      (c : MessageCacher Post Message)
      → Fits c.val.body
      → Misses k pending
      → HashMap.get items k ≡ some c
      → c.val.is_open ≡ true
      → replay
          (mutations env (and_open k text (HashMap.get items k) (to_diff items pending)))
          k
          c.val.body
        ≡ env.parse text true
  unfolding mutations
  and_open_self items k text pending c f d e o =
      let rest = to_diff items pending in
      ap (λ x. replay (mutations env (and_open k text x rest)) k c.val.body) e
      ∙ ap
          (λ x.
            replay (mutations env (if x then (k, c.val.body, text) ∷ rest else rest)) k c.val.body)
          o
      ∙ and_mutation-replay k c.val.body (env.parse text true) _ _ refl f
          (mutations-Spares env items k pending d)

  mutations-replay :
      (items : Items Post) (pending : Bodies) (k : ℕ) (c : MessageCacher Post Message)
      (text : List ℕ)
      → Fits c.val.body
      → AreDistinct pending
      → HashMap.get items k ≡ some c
      → c.val.is_open ≡ true
      → HashMap.get pending k ≡ some text
      → replay (mutations env (to_diff items pending)) k c.val.body ≡ env.parse text true
  unfolding mutations to_diff HashMap.get
  mutations-replay items [] k c text f d e o h = absurd (ground (arith, h))
  mutations-replay items ((j, b) ∷ pending) k c text f d e o h = elim (Bool-cases (j == k)) [
    | inl i ↦
        let same : k ≡ j = ground arith in
        let b_text : b ≡ text =
          some_inj (sym (ap (λ x. if x then some b else HashMap.get pending k) i) ∙ h) in
        subst
          (λ l.
            replay (mutations env (and_open l b (HashMap.get items l) (to_diff items pending))) k
              c.val.body
            ≡ env.parse text true)
          same
          (and_open_self items k b pending c f (subst (λ l. Misses l pending) (sym same) d.0) e o
            ∙ ap (λ t. env.parse t true) b_text)
    | inr i ↦
        and_open_other items j k b c.val.body pending (HashMap.get items j) i
        ∙ mutations-replay items pending k c text f d.1 e o
            (sym (ap (λ x. if x then some b else HashMap.get pending k) i) ∙ h)
  ]

  -- After the pending open bodies of a page are processed, an open post that was pending has the body
  -- that its text parses to, and so has a client that applies the patches of the batch to the bodies
  -- that the page had, where no post is pending twice, and each text of the page's bodies is below
  -- 2 ^ 16 characters.
  pub process-parse :
      (p : Bundle Post) (pending : Bodies) (k : ℕ) (c : MessageCacher Post Message) (text : List ℕ)
      → AllFit p.items
      → AreDistinct pending
      → HashMap.get p.items k ≡ some c
      → c.val.is_open ≡ true
      → HashMap.get pending k ≡ some text
      → (body_at (process env p pending).0.items k ≡ some (env.parse text true))
        × (replay_at (process env p pending).1 k (body_at p.items k) ≡ some (env.parse text true))
  unfolding process
  process-parse p pending k c text f d e o h =
      let replayed =
        ap (λ x. replay_at (process env p pending).1 k (body_of x)) e
        ∙ ap some
            (mutations-replay p.items pending k c text (f k c.val.body (ap body_of e)) d e o h) in
      (process-replay env p pending k f d ∙ replayed, replayed)
