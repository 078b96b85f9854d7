-- ===== src/Server/Body.antt =====
-- The parser of post bodies (server/src/body).
pub mod Commands
pub mod Links
pub mod Fragment
pub mod Pieces
pub mod Plain
pub mod Kept
pub mod Formatting
use shamichan.Prelude.{
  ℕ, ◌+◌, ◌^◌, List, [], ◌∷◌, Option, Bool, true, false, ◌==◌, ◌&&◌, ltb, if◌then◌else◌,
}
use shamichan.Server.Locations.{PostLocation}

-- `OPEN` and `QUOTED`
pub record Flags : Type 0 where
  pub is_open : Bool
  pub quoted : Bool

-- What the parser takes from the post location cache, the configuration and libraries.
pub record Env : Type 0 where
  -- a post in the cache, as far as it is known
  pub location : ℕ → PostLocation
  -- `config::get().public.links`
  pub link : List ℕ → Option (List ℕ)
  -- `Url::parse(word).is_ok()`
  pub is_url : List ℕ → Bool
  -- whether a word matches the pattern of this number
  pub matches : ℕ → List ℕ → Bool
  pub is_alphabetic : ℕ → Bool
  -- the syntaxes that are found by a token and by a first line
  pub by_token : List ℕ → Option ℕ
  pub by_first_line : List ℕ → Option ℕ
  pub plain_text : ℕ
  -- the HTML of lines, each with its newline, in a syntax
  pub generate : ℕ → List (List ℕ) → List ℕ

abbrev pub starts_with : List ℕ → List ℕ → Bool
starts_with [] s = true
starts_with (c ∷ p) [] = false
starts_with (c ∷ p) (d ∷ s) = c == d && starts_with p s

abbrev pub onto_first : ℕ → List (List ℕ) → List (List ℕ)
onto_first c [] = (c ∷ []) ∷ []
onto_first c (p ∷ ps) = (c ∷ p) ∷ ps

-- `split` at a character
abbrev pub split : ℕ → List ℕ → List (List ℕ)
split sep [] = [] ∷ []
split sep (c ∷ cs) = let rest = split sep cs in if c == sep then [] ∷ rest else onto_first c rest

-- What stands before the first of the characters that a test picks, and from it on.
abbrev pub break : (ℕ → Bool) → List ℕ → List ℕ × List ℕ
break p [] = ([], [])
break p (c ∷ cs) = let rest = break p cs in if p c then ([], c ∷ cs) else (c ∷ rest.0, rest.1)

-- The length of a text in bytes
abbrev pub utf8_length : List ℕ → ℕ
utf8_length [] = 0
utf8_length (c ∷ cs) =
    utf8_length cs
    + (if ltb c 128 then 1 else if ltb c 2048 then 2 else if ltb c (2 ^ 16) then 3 else 4)
