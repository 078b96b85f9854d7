-- ===== src/Server/Body/Kept.antt =====
-- A plain body is parsed to its own text (server/src/body/mod.rs: `parse`).
use shamichan.Prelude.{
  ℕ, ◌≡◌, refl, ap, sym, ◌∙◌, List, [], ◌∷◌, ◌++◌, map, append_assoc, append-nil, none, Bool, true,
  false, ◌==◌, arith, Bool-cases, inl, inr,
}
use shamichan.PostBody.Node.{Node}
use shamichan.PostBody.Append.Content.{content}
use shamichan.Server.Body.{Env, Flags, onto_first}
use shamichan.Server.Body.Pieces.{all, all_pieces}
use shamichan.Server.Body.Plain.{is_plain, no_links, item, content-parse_fragment}
use shamichan.Server.Body.Fragment.{parse_fragment}
use shamichan.Server.Body.Formatting.{
  find, onto_before, Level, code, spoilers, bolds, italics, delimiter, inner, at_start,
  split_and_parse, parse_formatted, parse_code, whole_lines, line_level, close_level, parse_levels,
  parse_quoted, parse,
}
use shamichan.Server.Body.Formatting.Equation.{parse_formatted_step}

not_delimiter : (l : Level) (c : ℕ) → is_plain c ≡ true → (c == delimiter l) ≡ false
not_delimiter code c h = ground arith
not_delimiter spoilers c h = ground arith
not_delimiter bolds c h = ground arith
not_delimiter italics c h = ground arith

find_plain : (l : Level) (s : List ℕ) → all is_plain s ≡ true → find (delimiter l) s ≡ none
unfolding find
find_plain l [] h = refl
find_plain l (c ∷ []) h = refl
find_plain l (c ∷ e ∷ cs) h =
    let f : (c == delimiter l) ≡ false = not_delimiter l c (ground arith) in
    rw f (ap (onto_before c) (find_plain l (e ∷ cs) (ground arith)))

-- Lines, one after the other
abbrev flat : List (List ℕ) → List ℕ
flat [] = []
flat (l ∷ ls) = l ++ flat ls

flat-onto_first : (c : ℕ) (ls : List (List ℕ)) → flat (onto_first c ls) ≡ c ∷ flat ls
flat-onto_first c [] = refl
flat-onto_first c (l ∷ ls) = refl

plain-onto_first :
    (c : ℕ) (ls : List (List ℕ))
    → is_plain c ≡ true
    → all_pieces is_plain ls ≡ true
    → all_pieces is_plain (onto_first c ls) ≡ true
plain-onto_first c [] h k = ground arith
plain-onto_first c (l ∷ ls) h k = ground arith

module _ (env : Env) where
  flat-whole_lines : (s : List ℕ) → flat (whole_lines env s) ≡ s
  flat-whole_lines [] = refl
  flat-whole_lines (c ∷ cs) = elim (Bool-cases (c == 10)) [
    | inl e ↦ rw e (ap (λ l. c ∷ l) (flat-whole_lines cs))
    | inr e ↦ rw e (flat-onto_first c (whole_lines env cs) ∙ ap (λ l. c ∷ l) (flat-whole_lines cs))
  ]

  plain-whole_lines :
      (s : List ℕ) → all is_plain s ≡ true → all_pieces is_plain (whole_lines env s) ≡ true
  plain-whole_lines [] h = refl
  plain-whole_lines (c ∷ cs) h =
      let p : is_plain c ≡ true = ground arith in
      let k : all_pieces is_plain (whole_lines env cs) ≡ true =
        plain-whole_lines cs (ground arith) in
      elim (Bool-cases (c == 10)) [
        | inl e ↦ rw e (ground arith)
        | inr e ↦ rw e (plain-onto_first c (whole_lines env cs) p k)
      ]

  line_level_plain : (l : List ℕ) → all is_plain l ≡ true → line_level env l ≡ 0
  unfolding line_level
  line_level_plain [] h = refl
  line_level_plain (c ∷ cs) h = let f : (c == 62) ≡ false = ground arith in rw f refl

  module _ (flags : Flags) where
    one_level :
        (l : Level) (dst : Node) (c : ℕ) (cs : List ℕ)
        → all is_plain (c ∷ cs) ≡ true
        → parse_formatted env flags l dst (c ∷ cs)
          ≡ inner env flags (parse_formatted env flags) l dst (c ∷ cs)
    unfolding split_and_parse
    one_level l dst c cs h =
        parse_formatted_step env flags l dst (c ∷ cs)
        ∙ ap (at_start env flags (parse_formatted env flags) l dst (c ∷ cs))
            (find_plain l (c ∷ cs) h)

    parse_code_plain :
        (dst : Node) (c : ℕ) (cs : List ℕ)
        → all is_plain (c ∷ cs) ≡ true
        → parse_code env flags dst (c ∷ cs) ≡ parse_fragment env flags dst (c ∷ cs)
    unfolding parse_code
    parse_code_plain dst c cs h =
        one_level code dst c cs h
        ∙ one_level spoilers dst c cs h
        ∙ one_level bolds dst c cs h
        ∙ one_level italics dst c cs h

    parse_levels_plain :
        (dst : Node) (text : List ℕ) (ls : List (List ℕ))
        → all_pieces is_plain ls ≡ true
        → parse_levels env flags dst 0 text ls ≡ close_level env flags dst 0 (text ++ flat ls)
    parse_levels_plain dst text [] h = ap (close_level env flags dst 0) (sym (append-nil text))
    parse_levels_plain dst text (l ∷ ls) h =
        let f : line_level env l ≡ 0 = line_level_plain l (ground arith) in
        rw f (
          parse_levels_plain dst (text ++ l) ls (ground arith)
          ∙ ap (close_level env flags dst 0) (append_assoc text l (flat ls)))

  -- A body without the characters of tags, commands and quotations, and in which no word, less the
  -- punctuation round it, starts like a URL and is accepted as one by the URL parser, is parsed to
  -- its own text: the content of the result is the characters of the body in order, each newline a
  -- node of its own.
  pub content-parse :
      (body : List ℕ) (is_open : Bool)
      → all is_plain body ≡ true
      → no_links env body ≡ true
      → content (parse env body is_open) ≡ map item body
  unfolding parse parse_quoted
  content-parse [] is_open h u = refl
  content-parse (c ∷ cs) is_open h u =
      let flags : Flags = record { is_open = is_open; quoted = false } in
      ap content (
        parse_levels_plain flags Node.empty [] (whole_lines env (c ∷ cs))
          (plain-whole_lines (c ∷ cs) h)
        ∙ ap (close_level env flags Node.empty 0) (flat-whole_lines (c ∷ cs))
        ∙ parse_code_plain flags Node.empty c cs h)
      ∙ content-parse_fragment env flags Node.empty (c ∷ cs) h u
