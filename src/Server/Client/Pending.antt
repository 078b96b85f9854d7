-- ===== src/Server/Client/Pending.antt =====
-- The closing of a client's post (server/src/client/message_handler.rs): `finalize_pending` and
-- `close_post`.
pub mod Settled
use shamichan.Prelude.{
  ℕ, zero, suc, ◌+◌, ◌%◌, ◌/◌, ◌^◌, List, [], ◌∷◌, ◌++◌, Option, none, some, Bool, true, false,
  if◌then◌else◌, ltb, ◌==◌, ◌&&◌, not,
}
use shamichan.PostBody.Node.{
  Node, Nodes, PendingNode, Command, nil, cons, empty, newline, children, code, url, spoiler, bold,
  italic, quoted, reference, embed,
}
use shamichan.Server.Client.{
  Env, MessageHandler, OpenPost, Outcome, Error, Effect, fail, ok, ask, do_send,
}

-- The decimal digits of a number, on fuel that is at least their count.
abbrev pub digits : ℕ → ℕ → List ℕ
digits zero n = []
digits (suc fuel) n =
    let rest = digits fuel (n / 10) in (if ltb n 10 then [] else rest) ++ (48 + n % 10) ∷ []

-- `format!(">>{}", id)`
abbrev pub link_text : ℕ → List ℕ
link_text id = 62 ∷ 62 ∷ digits (suc id) id

-- The choices of `#8ball`
abbrev pub choice : ℕ → List ℕ
choice n =
    if n == 0
    then 89 ∷ 101 ∷ 115 ∷ []
    else if n == 1
    then 78 ∷ 111 ∷ []
    else if n == 2
    then 77 ∷ 97 ∷ 121 ∷ 98 ∷ 101 ∷ []
    else if n == 3
    then 65 ∷ 110 ∷ 116 ∷ 97 ∷ 32 ∷ 98 ∷ 97 ∷ 107 ∷ 97 ∷ 63 ∷ []
    else 72 ∷ 101 ∷ 108 ∷ 108 ∷ 32 ∷ 121 ∷ 101 ∷ 97 ∷ 104 ∷ 44 ∷ 32 ∷ 109 ∷ 111 ∷ 116 ∷ 104 ∷ 101
      ∷ 114 ∷ 102 ∷ 117 ∷ 99 ∷ 107 ∷ 101 ∷ 114 ∷ 33 ∷ []

module _ (env : Env) where
  -- `rolls` numbers from the `n`-th random one
  abbrev pub roll : ℕ → ℕ → ℕ → List ℕ
  roll faces zero n = []
  roll faces (suc rolls) n = ((env.random n % 2 ^ 16) % faces + 1) ∷ roll faces rolls (suc n)

  abbrev pub located : ℕ → ℕ → Option (Option (ℕ × ℕ)) → Option (Node × ℕ)
  located id n none = none
  located id n (some none) = some (Node.text (link_text id), suc n)
  located id n (some (some (thread, page))) = some (Node.post_link id thread page, suc n)

  abbrev pub counted : (ℕ → Command) → ℕ → Option ℕ → Option (Node × ℕ)
  counted c n none = none
  counted c n (some k) = some (Node.command (c k), suc n)

  -- The node in place of a pending one, none for an error; `n` counts the questions that were asked.
  -- Dice without faces are a panic.
  abbrev pub settle : PendingNode → ℕ → Option (Node × ℕ)
  settle (PendingNode.autobahn h) n = some (Node.command (Command.autobahn h), n)
  settle (PendingNode.countdown s) n = some (Node.command (Command.countdown env.now s), n)
  settle (PendingNode.dice offset faces rolls) n =
      if faces == 0 && not (rolls == 0)
      then none
      else some (Node.command (Command.dice offset faces (roll faces rolls n)), n + rolls)
  settle PendingNode.eight_ball n =
      some (Node.command (Command.eight_ball (choice (env.random n % 5))), suc n)
  settle PendingNode.flip n = some (Node.command (Command.flip (env.random n % 2 == 1)), suc n)
  settle (PendingNode.post_link id) n = located id n (env.post_location n id)
  settle PendingNode.pyu n = counted Command.pyu n (env.pcount n true)
  settle PendingNode.p_count n = counted Command.p_count n (env.pcount n false)

  abbrev pub to_children : Option (Nodes × ℕ) → Option (Node × ℕ)
  to_children none = none
  to_children (some (ns, n)) = some (children ns, n)

  abbrev pub and_first : Node → Option (Nodes × ℕ) → Option (Nodes × ℕ)
  and_first x none = none
  and_first x (some (ns, n)) = some (cons x ns, n)

  unfoldable mutual
    -- `finalize_pending`
    pub finalize_pending : Node → ℕ → Option (Node × ℕ)
    finalize_pending (children ns) n = to_children (finalize_all ns n)
    finalize_pending (Node.pending p) n = settle p n
    finalize_pending x n = some (x, n)

    pub finalize_all : Nodes → ℕ → Option (Nodes × ℕ)
    finalize_all nil n = some (nil, n)
    finalize_all (cons x xs) n = elim (finalize_pending x n) [
      | none ↦ none
      | some r ↦ and_first r.0 (finalize_all xs r.1)
    ]

  abbrev pub close_with : MessageHandler → OpenPost → Node × ℕ → Outcome
  close_with s p (body, n) =
      if env.db_close_post p.id body
      then ok (do_send s (Effect.close_post p.feed p.page p.id body))
      else fail s Error.database

  abbrev pub close_open : MessageHandler → Option OpenPost → Outcome
  close_open s none = fail s Error.no_post_open
  close_open s (some p) =
      let s' : MessageHandler = record s { open_post = none } in
      ask (finalize_pending (env.parse p.body false) 0) Error.database s' (close_with s' p)

  -- `close_post`
  unfoldable pub close_post : MessageHandler → Outcome
  unfolding finalize_pending
  close_post s = close_open s s.open_post
