-- ===== src/Server/Body/Formatting.antt =====
-- Formatting tags and quotations (server/src/body/formatting.rs, and `parse` of
-- server/src/body/mod.rs). A delimiter is one character, twice. The separator after the name of a
-- syntax is taken to be of one byte.
pub mod Equation
use shamichan.Prelude.{
  ℕ, zero, suc, ◌+◌, ◌*◌, List, [], ◌∷◌, ◌++◌, map, Option, none, some, Bool, true, false,
  if◌then◌else◌, ◌==◌, ◌&&◌, ◌||◌, not, length, take, drop,
}
use shamichan.PostBody.Node.{Node}
use shamichan.PostBody.Append.{add_assign}
use shamichan.Feeds.Index.{is_empty}
use shamichan.Server.Body.{Env, Flags, split, break, onto_first}
use shamichan.Server.Body.Links.{detect_link}
use shamichan.Server.Body.Fragment.{parse_fragment}

-- The parts of a text around the first delimiter.
abbrev pub onto_before : ℕ → Option (List ℕ × List ℕ) → Option (List ℕ × List ℕ)
onto_before c none = none
onto_before c (some (b, a)) = some (c ∷ b, a)

-- `find`, with what stands before and after
unfoldable pub find : ℕ → List ℕ → Option (List ℕ × List ℕ)
find d [] = none
find d (c ∷ []) = none
find d (c ∷ e ∷ cs) =
    let rest = find d (e ∷ cs) in if c == d && e == d then some ([], cs) else onto_before c rest

-- The functions that `impl_formatting` makes, from `parse_code` to `parse_italics`.
pub data Level : Type 0 where
  code spoilers bolds italics : Level

abbrev pub delimiter : Level → ℕ
delimiter code = 96
delimiter spoilers = 42
delimiter bolds = 64
delimiter italics = 126

-- `lines`: a carriage return before a newline is dropped, and so is what follows the last newline
-- where that is empty.
abbrev pub without_return : List ℕ → List ℕ
without_return [] = []
without_return (c ∷ []) = if c == 13 then [] else c ∷ []
without_return (c ∷ d ∷ cs) = c ∷ without_return (d ∷ cs)

abbrev pub pieces : List (List ℕ) → List (List ℕ)
pieces [] = []
pieces ([] ∷ []) = []
pieces ((c ∷ cs) ∷ []) = (c ∷ cs) ∷ []
pieces (l ∷ m ∷ ls) = without_return l ∷ pieces (m ∷ ls)

abbrev pub lines : List ℕ → List (List ℕ)
lines s = pieces (split 10 s)

abbrev pub ends_newline : List ℕ → Bool
ends_newline [] = false
ends_newline (c ∷ []) = c == 10
ends_newline (c ∷ d ∷ cs) = ends_newline (d ∷ cs)

-- "\n</span>" without its newline
abbrev pub span_end : List ℕ
span_end = 60 ∷ 47 ∷ 115 ∷ 112 ∷ 97 ∷ 110 ∷ 62 ∷ []

abbrev pub same : List ℕ → List ℕ → Bool
same [] [] = true
same [] (d ∷ ds) = false
same (c ∷ cs) [] = false
same (c ∷ cs) (d ∷ ds) = c == d && same cs ds

-- The HTML without the newline before its last tag.
abbrev pub strip_newline : List ℕ → List ℕ
strip_newline [] = []
strip_newline (c ∷ cs) =
    let rest = strip_newline cs in if c == 10 && same cs span_end then cs else c ∷ rest

abbrev pub breaks : List ℕ → List ℕ
breaks [] = []
breaks (c ∷ cs) = let rest = breaks cs in if c == 10 then 60 ∷ 98 ∷ 114 ∷ 62 ∷ rest else c ∷ rest

abbrev pub or_else : Option ℕ → Option ℕ → Option ℕ
or_else none b = b
or_else (some a) b = some a

abbrev pub or_plain : ℕ → Option ℕ → ℕ
or_plain n none = n
or_plain n (some a) = a

module _ (env : Env) where
  abbrev pub html : List ℕ → Option ℕ → List ℕ
  html frag token =
      let syntax = or_plain env.plain_text (or_else token (env.by_first_line frag)) in
      let out = env.generate syntax (map (λ l. l ++ 10 ∷ []) (lines frag)) in
      breaks (if ends_newline frag then out else strip_newline out)

  -- A name of a syntax that stands first, and the rest from its separator on
  abbrev pub after_token : List ℕ → List ℕ × List ℕ → List ℕ
  after_token frag (name, []) = html frag none
  after_token frag (name, c ∷ rest) = elim (env.by_token name) [
    | none ↦ html frag none
    | some t ↦ html rest (some t)
  ]

  -- `highlight_code`
  unfoldable pub highlight_code : Node → List ℕ → Node
  unfolding add_assign
  highlight_code dst frag =
      add_assign dst (Node.code (after_token frag (break (λ c. not (env.is_alphabetic c)) frag)))

  module _ (flags : Flags) where
    -- A parser of a level
    abbrev pub Parser : Type 0
    Parser = Level → Node → List ℕ → Node

    -- The function for what is not in the tags of a level, and for the text in them
    abbrev pub inner : Parser → Level → Node → List ℕ → Node
    inner rec code dst frag = rec spoilers dst frag
    inner rec spoilers dst frag = rec bolds dst frag
    inner rec bolds dst frag = rec italics dst frag
    inner rec italics dst frag = parse_fragment env flags dst frag

    -- The function for the text in the tags of a level
    abbrev pub matched : Parser → Level → Node → List ℕ → Node
    matched rec code dst frag = highlight_code dst frag
    matched rec spoilers dst frag =
        add_assign dst (Node.spoiler (inner rec spoilers Node.empty frag))
    matched rec bolds dst frag = add_assign dst (Node.bold (inner rec bolds Node.empty frag))
    matched rec italics dst frag = add_assign dst (Node.italic (inner rec italics Node.empty frag))

    abbrev pub after_end : Parser → Level → Node → List ℕ → Option (List ℕ × List ℕ) → Node
    after_end rec l dst frag none = matched rec l dst frag
    after_end rec l dst frag (some ([], rest)) = dst
    after_end rec l dst frag (some (c ∷ text, rest)) = rec code (matched rec l dst (c ∷ text)) rest

    -- `with_remainder`
    abbrev pub with_remainder : Parser → Level → Node → List ℕ → Node
    with_remainder rec l dst frag = after_end rec l dst frag (find (delimiter l) frag)

    abbrev pub at_start : Parser → Level → Node → List ℕ → Option (List ℕ × List ℕ) → Node
    at_start rec l dst frag none = inner rec l dst frag
    at_start rec l dst frag (some ([], rest)) = with_remainder rec l dst rest
    at_start rec l dst frag (some (c ∷ text, rest)) =
        with_remainder rec l (inner rec l dst (c ∷ text)) rest

    -- `split_and_parse`
    unfoldable pub split_and_parse : Parser → Parser
    unfolding find parse_fragment add_assign highlight_code
    split_and_parse rec l dst [] = dst
    split_and_parse rec l dst (c ∷ cs) = at_start rec l dst (c ∷ cs) (find (delimiter l) (c ∷ cs))

    -- The functions of all levels, as they call one another, on fuel, and `out` where there is none
    -- left.
    unfoldable pub parse_at : Parser → ℕ → Parser
    unfolding split_and_parse
    parse_at out zero l dst frag = out l dst frag
    parse_at out (suc fuel) l dst frag = split_and_parse (parse_at out fuel) l dst frag

    abbrev pub rank : Level → ℕ
    rank code = 4
    rank spoilers = 3
    rank bolds = 2
    rank italics = 1

    -- Five rounds for each character and one for each level that is left.
    unfoldable pub parse_formatted : Parser
    unfolding parse_at
    parse_formatted l dst frag = parse_at (λ m d rest. d) (5 * length frag + rank l) l dst frag

  -- `parse_code`
  unfoldable pub parse_code : Flags → Node → List ℕ → Node
  unfolding parse_formatted
  parse_code flags dst frag = parse_formatted flags code dst frag

  -- A line with its newline
  abbrev pub whole_lines : List ℕ → List (List ℕ)
  whole_lines [] = []
  whole_lines (c ∷ cs) =
      let rest = whole_lines cs in if c == 10 then (c ∷ []) ∷ rest else onto_first c rest

  abbrev pub count_gt : List ℕ → ℕ
  count_gt [] = 0
  count_gt (c ∷ cs) = let rest = count_gt cs in if c == 62 then suc rest else 0

  abbrev pub or_count : ℕ → Option ℕ → ℕ
  or_count n none = n
  or_count n (some k) = k

  -- The quotation level of a line
  unfoldable pub line_level : List ℕ → ℕ
  unfolding detect_link
  line_level [] = 0
  line_level (c ∷ cs) =
      if c == 62
      then or_count (count_gt (c ∷ cs))
          (detect_link env (break (λ b. b == 10 || b == 32) (c ∷ cs)).0)
      else 0

  module _ (flags : Flags) where
    -- `close_level`
    abbrev pub close_level : Node → ℕ → List ℕ → Node
    close_level dst level [] = dst
    close_level dst zero (c ∷ text) = parse_code flags dst (c ∷ text)
    close_level dst (suc n) (c ∷ text) =
        add_assign dst
          (Node.quoted (parse_code (record flags { quoted = true }) Node.empty (c ∷ text)))

    -- The loop over the lines, with the text of the current level
    abbrev pub parse_levels : Node → ℕ → List ℕ → List (List ℕ) → Node
    parse_levels dst level text [] = close_level dst level text
    parse_levels dst level text (l ∷ ls) =
        let other = parse_levels (close_level dst level text) (line_level l) l ls in
        let more = parse_levels dst level (text ++ l) ls in
        if line_level l == level then more else other

    -- `parse_quoted`
    unfoldable pub parse_quoted : Node → List ℕ → Node
    unfolding parse_code line_level add_assign
    parse_quoted dst frag = parse_levels dst 0 [] (whole_lines frag)

  -- `parse`
  unfoldable pub parse : List ℕ → Bool → Node
  unfolding parse_quoted
  parse body is_open =
      if is_empty body
      then Node.empty
      else parse_quoted (record { is_open = is_open; quoted = false }) Node.empty body
