-- ===== src/Server/Body/Commands.antt =====
-- The hash commands with arguments (server/src/body/commands.rs).
use shamichan.Prelude.{
  ℕ, ◌-◌, ◌^◌, List, [], ◌∷◌, Option, none, some, if◌then◌else◌, ltb, ◌==◌, ◌||◌, drop,
}
use shamichan.PostBody.Node.{ℤ, pos, Node, PendingNode}
use shamichan.Decimal.{parse_up_to, parse_i16}
use shamichan.Server.Body.{break}

abbrev pub wrap : (ℕ → PendingNode) → Option ℕ → Option Node
wrap gen none = none
wrap gen (some n) = some (Node.pending (gen n))

-- What stands in front of a closing parenthesis that ends a text.
abbrev pub in_parenthesis : List ℕ → Option (List ℕ)
in_parenthesis [] = none
in_parenthesis (c ∷ []) = if c == 41 then some [] else none
in_parenthesis (c ∷ d ∷ cs) = elim (in_parenthesis (d ∷ cs)) [ none ↦ none | some s ↦ some (c ∷ s) ]

abbrev pub argument : (List ℕ → Option ℕ) → Option (List ℕ) → Option ℕ
argument parse none = none
argument parse (some s) = parse s

-- `parse_argument_command`, of a word whose prefix has `n` characters.
unfoldable pub parse_argument_command :
    List ℕ → ℕ → ℕ → (List ℕ → Option ℕ) → (ℕ → PendingNode) → Option Node
parse_argument_command word n default parse gen = elim (drop n word) [
  | [] ↦ wrap gen (some default)
  | c ∷ cs ↦ if c == 40 then wrap gen (argument parse (in_parenthesis cs)) else none
]

-- `parse_countdown`
unfoldable pub parse_countdown : List ℕ → Option Node
unfolding parse_argument_command
parse_countdown word =
    parse_argument_command word 9 10 (parse_up_to (2 ^ 32 - 1)) PendingNode.countdown

-- `parse_autobahn`
unfoldable pub parse_autobahn : List ℕ → Option Node
unfolding parse_argument_command
parse_autobahn word =
    parse_argument_command word 8 2 (parse_up_to (2 ^ 16 - 1)) PendingNode.autobahn

abbrev pub rolls_of : List ℕ → Option ℕ
rolls_of [] = some 1
rolls_of (c ∷ cs) = elim (parse_up_to (2 ^ 8 - 1) (c ∷ cs)) [
  | none ↦ none
  | some r ↦ if ltb 10 r then none else some r
]

abbrev pub faces_of : List ℕ → Option ℕ
faces_of s = elim (parse_up_to (2 ^ 16 - 1) s) [
  | none ↦ none
  | some n ↦ if n == 0 then none else some n
]

abbrev pub offset_of : List ℕ → Option ℤ
offset_of [] = some (pos 0)
offset_of (c ∷ cs) = parse_i16 (c ∷ cs)

abbrev pub dice_of : Option ℕ → Option ℕ → Option ℤ → Option Node
dice_of (some rolls) (some faces) (some offset) =
    some (Node.pending (PendingNode.dice offset faces rolls))
dice_of rolls faces offset = none

-- The dice of the texts before and after the `d`.
abbrev pub dice_at : List ℕ → List ℕ → Option Node
dice_at before after =
    let rest = break (λ c. c == 43 || c == 45) after in
    dice_of (rolls_of before) (faces_of rest.0) (offset_of rest.1)

-- `parse_dice`
unfoldable pub parse_dice : List ℕ → Option Node
parse_dice word =
    let split = break (λ c. c == 100) word in
    elim split.1 [ [] ↦ none | c ∷ after ↦ dice_at split.0 after ]
