-- ===== src/Server/Body/Links.antt =====
-- Post links and configured references (server/src/body/links.rs: `parse_links_inner`, `parse_link`
-- and `detect_link`).
pub mod Reads
pub mod Detected
use shamichan.Prelude.{
  ℕ, zero, suc, ◌+◌, ◌-◌, ◌^◌, List, [], ◌∷◌, ◌++◌, Option, none, some, Bool, true, false, not,
  if◌then◌else◌, ltb, ◌==◌, ◌&&◌,
}
use shamichan.PostBody.Node.{Node, PendingNode}
use shamichan.PostBody.Append.{add_assign, add_string}
use shamichan.Decimal.{parse_up_to, is_digit}
use shamichan.Server.Locations.{PostLocation}
use shamichan.Server.Body.{Env, break, utf8_length}

-- What a word links to, with the number of extra signs before it.
pub data Link : Type 0 where
  post_link : ℕ → PostLocation → ℕ → Link
  reference : List ℕ → ℕ → Link

abbrev pub located : Env → ℕ → Option ℕ → Option Link
located env extra none = none
located env extra (some id) = some (post_link id (env.location id) extra)

-- `parse_post_link`, of what follows the signs
unfoldable pub parse_post_link : Env → List ℕ → ℕ → Option Link
parse_post_link env word extra = located env extra (parse_up_to (2 ^ 64 - 1) word)

-- A name of two bytes or more, and a slash that ends the word.
abbrev pub named : List ℕ × List ℕ → ℕ → Option Link
named (name, slash ∷ []) extra =
    if ltb 1 (utf8_length name) then some (reference name extra) else none
named (name, rest) extra = none

-- `parse_reference`, of what follows the first slash
unfoldable pub parse_reference : List ℕ → ℕ → Option Link
parse_reference word zero = none
parse_reference word (suc extra) = named (break (λ c. c == 47) word) extra

-- The loop over the characters after the first two
unfoldable pub scan : Env → List ℕ → ℕ → Option Link
unfolding parse_post_link parse_reference
scan env [] extra = none
scan env (c ∷ cs) extra =
    let rest = scan env cs (suc extra) in
    if c == 62
    then rest
    else if is_digit c
    then parse_post_link env (c ∷ cs) extra
    else if c == 47
    then parse_reference cs extra
    else none

-- `parse_links_inner`
unfoldable pub parse_links_inner : Env → List ℕ → Option Link
unfolding scan
parse_links_inner env [] = none
parse_links_inner env (c ∷ []) = none
parse_links_inner env (c ∷ d ∷ cs) =
    let link = scan env cs 0 in if c == 62 && d == 62 then link else none

abbrev pub repeat : ℕ → List ℕ
repeat zero = []
repeat (suc n) = 62 ∷ repeat n

abbrev pub link_node : Env → Link → Option Node
link_node env (post_link id PostLocation.does_not_exist extra) = none
link_node env (post_link id (PostLocation.exists thread page) extra) =
    some (Node.post_link id thread page)
link_node env (post_link id PostLocation.not_fetched extra) =
    some (Node.pending (PendingNode.post_link id))
link_node env (reference label extra) = elim (env.link label) [
  | none ↦ none
  | some url ↦ some (Node.reference label url)
]

abbrev pub extra_gt : Link → ℕ
extra_gt (post_link id loc extra) = extra
extra_gt (reference label extra) = extra

abbrev pub with_extra : Node → ℕ → Node
with_extra dst zero = dst
with_extra dst (suc n) = add_string dst (repeat (suc n))

abbrev pub written : Node → ℕ → Option Node → Node × Bool
written dst extra none = (dst, false)
written dst extra (some n) = (add_assign (with_extra dst extra) n, true)

-- `parse_link`
unfoldable pub parse_link : Env → Node → List ℕ → Node × Bool
unfolding parse_links_inner add_assign add_string
parse_link env dst word = elim (parse_links_inner env word) [
  | none ↦ (dst, false)
  | some l ↦ written dst (extra_gt l) (link_node env l)
]

abbrev pub is_some : {A : Type 0} → Option A → Bool
is_some none = false
is_some (some x) = true

-- The level of a link whose target is not known not to exist.
abbrev pub level : Env → Link → Option ℕ
level env (post_link id PostLocation.does_not_exist extra) = none
level env (post_link id loc extra) = some extra
level env (reference label extra) = if is_some (env.link label) then some extra else none

-- `detect_link`
unfoldable pub detect_link : Env → List ℕ → Option ℕ
unfolding parse_links_inner
detect_link env word = elim (parse_links_inner env word) [ none ↦ none | some l ↦ level env l ]
