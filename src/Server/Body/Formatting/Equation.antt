-- ===== src/Server/Body/Formatting/Equation.antt =====
-- The fuel of the functions of the formatting tags is never used up
-- (server/src/body/formatting.rs).
use shamichan.Prelude.{
  ℕ, zero, suc, ◌+◌, ◌*◌, ◌≡◌, ◌<◌, ◌≤◌, refl, ap, ◌∙◌, List, [], ◌∷◌, Option, none, some, Bool,
  true, false, ◌==◌, ◌&&◌, if◌then◌else◌, length, arith,
}
use shamichan.PostBody.Node.{Node}
use shamichan.PostBody.Append.{add_assign}
use shamichan.Server.Body.{Env, Flags}
use shamichan.Server.Body.Formatting.{
  find, onto_before, Level, code, spoilers, bolds, italics, delimiter, Parser, inner, matched,
  after_end, with_remainder, at_start, split_and_parse, parse_at, parse_formatted, rank,
}

-- The text around a delimiter is shorter than the whole by the delimiter.
abbrev Around : List ℕ → Option (List ℕ × List ℕ) → Type 0
Around frag none = Unit
Around frag (some (b, a)) = suc (suc (length b + length a)) ≡ length frag

Around-onto :
    (c : ℕ) (frag : List ℕ) (o : Option (List ℕ × List ℕ))
    → Around frag o
    → Around (c ∷ frag) (onto_before c o)
Around-onto c frag none h = tt
Around-onto c frag (some (b, a)) h = omega arith

Around-if :
    (t : Bool) (frag : List ℕ) (o p : Option (List ℕ × List ℕ))
    → Around frag o
    → Around frag p
    → Around frag (if t then o else p)
Around-if true frag o p h k = h
Around-if false frag o p h k = k

Around-find : (d : ℕ) (frag : List ℕ) → Around frag (find d frag)
unfolding find
Around-find d [] = tt
Around-find d (c ∷ []) = tt
Around-find d (c ∷ e ∷ cs) =
    Around-if (c == d && e == d) (c ∷ e ∷ cs) (some ([], cs)) (onto_before c (find d (e ∷ cs)))
      (omega arith) (Around-onto c (e ∷ cs) (find d (e ∷ cs)) (Around-find d (e ∷ cs)))

module _ (env : Env) (flags : Flags) where
  -- Two parsers agree where the measure is below `n`.
  abbrev Agree : ℕ → Parser env flags → Parser env flags → Type 0
  Agree n rec rec' =
      (l : Level) (dst : Node) (frag : List ℕ)
      → 5 * length frag + rank env flags l < n
      → rec l dst frag ≡ rec' l dst frag

  module _ (n : ℕ) (rec rec' : Parser env flags) (agree : Agree n rec rec') where
    same_inner :
        (l : Level) (dst : Node) (frag : List ℕ)
        → 5 * length frag + rank env flags l ≤ n
        → inner env flags rec l dst frag ≡ inner env flags rec' l dst frag
    same_inner code dst frag h = agree spoilers dst frag (omega arith)
    same_inner spoilers dst frag h = agree bolds dst frag (omega arith)
    same_inner bolds dst frag h = agree italics dst frag (omega arith)
    same_inner italics dst frag h = refl

    same_matched :
        (l : Level) (dst : Node) (frag : List ℕ)
        → 5 * length frag + rank env flags l ≤ n
        → matched env flags rec l dst frag ≡ matched env flags rec' l dst frag
    same_matched code dst frag h = refl
    same_matched spoilers dst frag h =
        ap (λ m. add_assign dst (Node.spoiler m)) (same_inner spoilers Node.empty frag h)
    same_matched bolds dst frag h =
        ap (λ m. add_assign dst (Node.bold m)) (same_inner bolds Node.empty frag h)
    same_matched italics dst frag h =
        ap (λ m. add_assign dst (Node.italic m)) (same_inner italics Node.empty frag h)

    same_after_end :
        (l : Level) (dst : Node) (frag : List ℕ) (o : Option (List ℕ × List ℕ))
        → Around frag o
        → 5 * length frag + rank env flags l ≤ n
        → after_end env flags rec l dst frag o ≡ after_end env flags rec' l dst frag o
    same_after_end l dst frag none a h = same_matched l dst frag h
    same_after_end l dst frag (some ([], rest)) a h = refl
    same_after_end l dst frag (some (c ∷ text, rest)) a h =
        ap (λ d. rec code d rest) (same_matched l dst (c ∷ text) (omega arith))
        ∙ agree code (matched env flags rec' l dst (c ∷ text)) rest (omega arith)

    same_with_remainder :
        (l : Level) (dst : Node) (frag : List ℕ)
        → 5 * length frag + rank env flags l ≤ n
        → with_remainder env flags rec l dst frag ≡ with_remainder env flags rec' l dst frag
    same_with_remainder l dst frag h =
        same_after_end l dst frag (find (delimiter l) frag) (Around-find (delimiter l) frag) h

    same_at_start :
        (l : Level) (dst : Node) (frag : List ℕ) (o : Option (List ℕ × List ℕ))
        → Around frag o
        → 5 * length frag + rank env flags l ≤ n
        → at_start env flags rec l dst frag o ≡ at_start env flags rec' l dst frag o
    same_at_start l dst frag none a h = same_inner l dst frag h
    same_at_start l dst frag (some ([], rest)) a h = same_with_remainder l dst rest (omega arith)
    same_at_start l dst frag (some (c ∷ text, rest)) a h =
        ap (λ d. with_remainder env flags rec l d rest) (same_inner l dst (c ∷ text) (omega arith))
        ∙ same_with_remainder l (inner env flags rec' l dst (c ∷ text)) rest (omega arith)

    same_split_and_parse :
        (l : Level) (dst : Node) (frag : List ℕ)
        → 5 * length frag + rank env flags l ≤ n
        → split_and_parse env flags rec l dst frag ≡ split_and_parse env flags rec' l dst frag
    unfolding split_and_parse
    same_split_and_parse l dst [] h = refl
    same_split_and_parse l dst (c ∷ cs) h =
        same_at_start l dst (c ∷ cs) (find (delimiter l) (c ∷ cs))
          (Around-find (delimiter l) (c ∷ cs)) h

  has_rank : (l : Level) → 1 ≤ rank env flags l
  has_rank code = omega arith
  has_rank spoilers = omega arith
  has_rank bolds = omega arith
  has_rank italics = omega arith

  -- Two amounts of fuel that are both enough give one result, whatever is done without fuel.
  enough :
      (out out' : Parser env flags) (f g : ℕ) (l : Level) (dst : Node) (frag : List ℕ)
      → 5 * length frag + rank env flags l ≤ f
      → 5 * length frag + rank env flags l ≤ g
      → parse_at env flags out f l dst frag ≡ parse_at env flags out' g l dst frag
  unfolding parse_at
  enough out out' zero g l dst frag h k = absurd (omega (arith, has_rank l))
  enough out out' (suc f) zero l dst frag h k = absurd (omega (arith, has_rank l))
  enough out out' (suc f) (suc g) l dst frag h k =
      same_split_and_parse (5 * length frag + rank env flags l) (parse_at env flags out f)
        (parse_at env flags out' g)
        (λ m d r s. enough out out' f g m d r (omega arith) (omega arith)) l dst frag (omega arith)

  at_enough :
      (out : Parser env flags) (f : ℕ) (l : Level) (dst : Node) (frag : List ℕ)
      → 5 * length frag + rank env flags l ≤ f
      → parse_at env flags out f l dst frag ≡ parse_formatted env flags l dst frag
  unfolding parse_formatted
  at_enough out f l dst frag h =
      enough out (λ m d rest. d) f (5 * length frag + rank env flags l) l dst frag h (omega arith)

  below :
      (n : ℕ) (l : Level) (dst : Node) (frag : List ℕ)
      → n ≡ 5 * length frag + rank env flags l
      → parse_at env flags (λ m d rest. d) n l dst frag
        ≡ split_and_parse env flags (parse_formatted env flags) l dst frag
  unfolding parse_at
  below zero l dst frag e = absurd (omega (arith, has_rank l))
  below (suc n) l dst frag e =
      same_split_and_parse (5 * length frag + rank env flags l)
        (parse_at env flags (λ m d rest. d) n) (parse_formatted env flags)
        (λ m d r s. at_enough (λ m d rest. d) n m d r (omega arith)) l dst frag (omega arith)

  pub parse_formatted_step :
      (l : Level) (dst : Node) (frag : List ℕ)
      → parse_formatted env flags l dst frag
        ≡ split_and_parse env flags (parse_formatted env flags) l dst frag
  unfolding parse_formatted
  parse_formatted_step l dst frag = below (5 * length frag + rank env flags l) l dst frag refl

  -- The parser of each level terminates: from five rounds for each character and the rank of the
  -- level on, the result is that of the parser whatever the amount of fuel and whatever is done
  -- where there is none left, so that this is never reached. And the parser is `split_and_parse`
  -- with the parsers themselves for the levels below and for the text after a tag.
  pub parse_formatted-split_and_parse :
      (out : Parser env flags) (fuel : ℕ) (l : Level) (dst : Node) (frag : List ℕ)
      → 5 * length frag + rank env flags l ≤ fuel
      → (parse_at env flags out fuel l dst frag ≡ parse_formatted env flags l dst frag)
        × (parse_formatted env flags l dst frag
            ≡ split_and_parse env flags (parse_formatted env flags) l dst frag)
  parse_formatted-split_and_parse out fuel l dst frag h =
      (at_enough out fuel l dst frag h, parse_formatted_step l dst frag)
