-- ===== src/Server/Client/Pending/Settled.antt =====
-- What is left pending in the body of a closed post (server/src/client/message_handler.rs).
use shamichan.Prelude.{
  ℕ, ◌+◌, ◌≡◌, refl, ap₂, subst, Option, none, some, true, false, ◌==◌, ◌&&◌, not, Bool-cases, inl,
  inr,
}
use shamichan.PostBody.Node.{
  Node, Nodes, PendingNode, Command, nil, cons, children, spoiler, bold, italic, quoted, pending,
}
use shamichan.Server.Client.{Env}
use shamichan.Server.Client.Pending.{
  settle, located, counted, to_children, and_first, finalize_pending, finalize_all,
}

-- The pending nodes of a body.
mutual
  pub pendings : Node → ℕ
  pendings (children ns) = pendings_all ns
  pendings (spoiler n) = pendings n
  pendings (bold n) = pendings n
  pendings (italic n) = pendings n
  pendings (quoted n) = pendings n
  pendings (pending p) = 1
  pendings n = 0

  pub pendings_all : Nodes → ℕ
  pendings_all nil = 0
  pendings_all (cons n ns) = pendings n + pendings_all ns

-- Those of them that stand under a spoiler, a quotation or a style.
mutual
  unfolding pendings

  pub hidden : Node → ℕ
  hidden (children ns) = hidden_all ns
  hidden (spoiler n) = pendings n
  hidden (bold n) = pendings n
  hidden (italic n) = pendings n
  hidden (quoted n) = pendings n
  hidden n = 0

  pub hidden_all : Nodes → ℕ
  hidden_all nil = 0
  hidden_all (cons n ns) = hidden n + hidden_all ns

abbrev Settles : ℕ → Option (Node × ℕ) → Type 0
Settles k none = Unit {0}
Settles k (some (m, j)) = pendings m ≡ k

abbrev AllSettle : ℕ → Option (Nodes × ℕ) → Type 0
AllSettle k none = Unit {0}
AllSettle k (some (ms, j)) = pendings_all ms ≡ k

module _ (env : Env) where
  located-Settles : (id n : ℕ) (o : Option (Option (ℕ × ℕ))) → Settles 0 (located env id n o)
  unfolding pendings
  located-Settles id n none = tt
  located-Settles id n (some none) = refl
  located-Settles id n (some (some (t, p))) = refl

  counted-Settles : (c : ℕ → Command) (n : ℕ) (o : Option ℕ) → Settles 0 (counted env c n o)
  unfolding pendings
  counted-Settles c n none = tt
  counted-Settles c n (some k) = refl

  settle-Settles : (p : PendingNode) (n : ℕ) → Settles 0 (settle env p n)
  unfolding pendings
  settle-Settles (PendingNode.autobahn h) n = refl
  settle-Settles (PendingNode.countdown s) n = refl
  settle-Settles (PendingNode.dice offset faces rolls) n =
      elim (Bool-cases (faces == 0 && not (rolls == 0))) [ inl e ↦ rw e tt | inr e ↦ rw e refl ]
  settle-Settles PendingNode.eight_ball n = refl
  settle-Settles PendingNode.flip n = refl
  settle-Settles (PendingNode.post_link id) n = located-Settles id n (env.post_location n id)
  settle-Settles PendingNode.pyu n = counted-Settles Command.pyu n (env.pcount n true)
  settle-Settles PendingNode.p_count n = counted-Settles Command.p_count n (env.pcount n false)

  to_children-Settles :
      (k : ℕ) (o : Option (Nodes × ℕ)) → AllSettle k o → Settles k (to_children env o)
  unfolding pendings
  to_children-Settles k none h = tt
  to_children-Settles k (some (ns, j)) h = h

  and_first-AllSettle :
      (a b : ℕ) (m : Node) (o : Option (Nodes × ℕ))
      → pendings m ≡ a
      → AllSettle b o
      → AllSettle (a + b) (and_first env m o)
  unfolding pendings
  and_first-AllSettle a b m none e h = tt
  and_first-AllSettle a b m (some (ns, j)) e h = ap₂ ◌+◌ e h

  then_all :
      (x : Node) (xs : Nodes) (o : Option (Node × ℕ))
      → Settles (hidden x) o
      → ((n : ℕ) → AllSettle (hidden_all xs) (finalize_all env xs n))
      → AllSettle (hidden x + hidden_all xs) (elim o as (λ _. Option (Nodes × ℕ)) [
        | none ↦ none
        | some r ↦ and_first env r.0 (finalize_all env xs r.1)
      ])
  unfolding finalize_pending hidden pendings
  then_all x xs none h k = tt
  then_all x xs (some (m, j)) h k =
      and_first-AllSettle (hidden x) (hidden_all xs) m (finalize_all env xs j) h (k j)

  mutual
    unfolding finalize_pending hidden pendings

    finalize_pending-Settles : (x : Node) (n : ℕ) → Settles (hidden x) (finalize_pending env x n)
    finalize_pending-Settles (children ns) n =
        to_children-Settles (hidden_all ns) (finalize_all env ns n) (finalize_all-AllSettle ns n)
    finalize_pending-Settles (pending p) n = settle-Settles p n
    finalize_pending-Settles x n = refl

    finalize_all-AllSettle :
        (xs : Nodes) (n : ℕ) → AllSettle (hidden_all xs) (finalize_all env xs n)
    finalize_all-AllSettle nil n = refl
    finalize_all-AllSettle (cons x xs) n =
        then_all x xs (finalize_pending env x n) (finalize_pending-Settles x n)
          (finalize_all-AllSettle xs)

  -- The body of a closed post has as many pending nodes as the body that was finalized had under
  -- spoilers, quotations and styles: those are not replaced, and all others are.
  pub pendings-finalize_pending :
      (body final : Node) (n j : ℕ)
      → finalize_pending env body n ≡ some (final, j)
      → pendings final ≡ hidden body
  pendings-finalize_pending body final n j e =
      subst (Settles (hidden body)) e (finalize_pending-Settles body n)
