-- ===== src/Server/Client/Names.antt =====
-- Texts that a client sends: `trim`, `parse_name` and the length checks of
-- server/src/client/message_handler.rs.
use shamichan.Prelude.{
  ℕ, ◌+◌, List, [], ◌∷◌, reverse, Option, none, some, Bool, true, if◌then◌else◌, ◌&&◌, ltb, leb,
  ◌==◌, length,
}
use shamichan.Feeds.Index.{str_le, add_tags, is_empty}
use shamichan.Server.Client.{Env}

abbrev pub drop_while : (ℕ → Bool) → List ℕ → List ℕ
drop_while p [] = []
drop_while p (c ∷ s) = let rest = drop_while p s in if p c then rest else c ∷ s

-- The bytes of a text in UTF-8, `str::len`.
abbrev pub utf8_len : List ℕ → ℕ
utf8_len [] = 0
utf8_len (c ∷ s) =
    (if ltb c 0x80 then 1 else if ltb c 0x800 then 2 else if ltb c 0x10000 then 3 else 4)
    + utf8_len s

-- `check_len!` and `check_unicode_len!` with their default minimum
abbrev pub check_len : ℕ → ℕ → Bool
check_len len max = leb 1 len && leb len max

-- The text before the first `#`, and what follows it.
abbrev pub split_hash : List ℕ → List ℕ × Option (List ℕ)
split_hash [] = ([], none)
split_hash (c ∷ s) =
    let (name, rest) = split_hash s in if c == 35 then ([], some s) else (c ∷ name, rest)

abbrev pub insert_str : List ℕ → List (List ℕ) → List (List ℕ)
insert_str s [] = s ∷ []
insert_str s (t ∷ ts) = if str_le s t then s ∷ t ∷ ts else t ∷ insert_str s ts

-- `tags.sort()`
abbrev pub sort : List (List ℕ) → List (List ℕ)
sort [] = []
sort (s ∷ ss) = insert_str s (sort ss)

-- Whether the set of the tags is as large as their list.
abbrev pub are_distinct : List (List ℕ) → Bool
are_distinct tags = length (add_tags tags []) == length tags

module _ (env : Env) where
  -- `MessageHandler::trim`
  unfoldable pub trim : List ℕ → List ℕ
  trim s = reverse (drop_while env.is_whitespace (reverse (drop_while env.is_whitespace s)))

  -- A `#` at the end of the name stays there.
  abbrev pub name_and_trip : List ℕ → List ℕ × Option (List ℕ) → Option (List ℕ) × Option (List ℕ)
  name_and_trip s (name, none) = (some s, none)
  name_and_trip s (name, some []) = (some s, none)
  name_and_trip s (name, some (c ∷ pass)) = (some name, some (env.tripcode (c ∷ pass)))

  -- `MessageHandler::parse_name`, none for an error: a name and a tripcode.
  unfoldable pub parse_name : List ℕ → Option (Option (List ℕ) × Option (List ℕ))
  unfolding trim
  parse_name s =
      if is_empty s
      then some (none, none)
      else if ltb 50 (utf8_len s)
      then none
      else some (name_and_trip (trim s) (split_hash (trim s)))

  abbrev pub clean_tags : List (List ℕ) → List (List ℕ)
  clean_tags [] = []
  clean_tags (t ∷ ts) = env.to_lowercase (trim t) ∷ clean_tags ts

  abbrev pub check_tags : List (List ℕ) → Bool
  check_tags [] = true
  check_tags (t ∷ ts) = check_len (length t) 20 && check_tags ts

  -- `MessageHandler::check_captcha`
  unfoldable pub check_captcha : List ℕ → Bool
  check_captcha solution = if env.enable_antispam then check_len (length solution) 4 else true
