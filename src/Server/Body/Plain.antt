-- ===== src/Server/Body/Plain.antt =====
-- Text that has no tags, commands, links or URLs is kept as it is (server/src/body/fragment.rs).
use shamichan.Prelude.{
  ℕ, ◌≡◌, refl, ap, ap₂, sym, eqb→eq, ◌∙◌, List, [], ◌∷◌, ◌++◌, map, append_assoc, append-nil, none,
  Bool, true, false, not, ◌==◌, ◌&&◌, ◌||◌, if◌then◌else◌, drop, arith, Bool-cases, inl, inr,
}
use shamichan.PostBody.Node.{Node}
use shamichan.PostBody.Append.{add_assign, add_string}
use shamichan.PostBody.Append.Content.{Item, content, add_assign-content}
use shamichan.Server.Body.{Env, Flags, split, starts_with}
use shamichan.Server.Body.Pieces.{
  chars, glue, glued, glued_rest, glued-split, all, all_pieces, all_pieces-split,
}
use shamichan.Server.Body.Fragment.{
  parse_fragment, parse_all, parse_lines, parse_line_fragment, parse_first, parse_words,
  parse_split, parse_inner, parse_word, word_after, with_url, url_of, count_gt, add_char,
  split_punctuation, split_trailing, is_punctuation, parse_http_url, http, is_other_scheme,
}

-- Neither the sign of a command or a quotation, nor of a tag, nor the character 0.
abbrev pub is_plain : ℕ → Bool
is_plain c =
    not (c == 0)
    && (not (c == 35)
        && (not (c == 42)
            && (not (c == 62) && (not (c == 64) && (not (c == 96) && not (c == 126))))))

-- A character of a body: a newline is a node of its own.
abbrev pub item : ℕ → Item
item c = glue (Item.leaf Node.newline) 10 c

abbrev edge : ℕ → List ℕ
edge c = if c == 0 then [] else c ∷ []

abbrev joined : ℕ × List ℕ × ℕ → List ℕ
joined (lead, word, trail) = edge lead ++ (word ++ edge trail)

edge_lem : (c : ℕ) → is_plain c ≡ true → edge c ≡ c ∷ []
edge_lem c h = let f : (c == 0) ≡ false = ground arith in rw f refl

split_trailing_lem :
    (w : List ℕ)
    → all is_plain w ≡ true
    → ((split_trailing w).0 ++ edge (split_trailing w).1 ≡ w)
      × (all is_plain (split_trailing w).0 ≡ true)
split_trailing_lem [] h = (refl, refl)
split_trailing_lem (c ∷ []) h = (refl, h)
split_trailing_lem (c ∷ d ∷ []) h = elim (Bool-cases (is_punctuation d)) [
  | inl e ↦ (rw e (ap (λ l. c ∷ l) (edge_lem d (ground arith))), rw e (ground arith))
  | inr e ↦ (rw e refl, rw e h)
]
split_trailing_lem (c ∷ d ∷ e ∷ cs) h =
    let (k, l) = split_trailing_lem (d ∷ e ∷ cs) (ground arith) in (ap (λ m. c ∷ m) k, ground arith)

split_punctuation_lem :
    (w : List ℕ)
    → all is_plain w ≡ true
    → (joined (split_punctuation w) ≡ w) × (all is_plain (split_punctuation w).1 ≡ true)
unfolding split_punctuation
split_punctuation_lem [] h = (refl, refl)
split_punctuation_lem (c ∷ []) h = (refl, h)
split_punctuation_lem (c ∷ d ∷ cs) h = elim (Bool-cases (is_punctuation c)) [
  | inl e ↦
      let (k, l) = split_trailing_lem (d ∷ cs) (ground arith) in
      let f : (c == 0) ≡ false = ground arith in (rw e (rw f (ap (λ m. c ∷ m) k)), rw e l)
  | inr e ↦ let (k, l) = split_trailing_lem (c ∷ d ∷ cs) h in (rw e k, rw e l)
]

chars-append : (s t : List ℕ) → chars (s ++ t) ≡ chars s ++ chars t
chars-append [] t = refl
chars-append (c ∷ s) t = ap (λ l. Item.char c ∷ l) (chars-append s t)

space_lem : (c : ℕ) → glue (Item.char 32) 32 c ≡ Item.char c
space_lem c = elim (Bool-cases (c == 32)) [
  | inl e ↦ rw e (ap Item.char (sym (eqb→eq c 32 e)))
  | inr e ↦ rw e refl
]

spaces_lem : (s : List ℕ) → map (glue (Item.char 32) 32) s ≡ chars s
spaces_lem [] = refl
spaces_lem (c ∷ s) = ap₂ ◌∷◌ (space_lem c) (spaces_lem s)

-- A word that starts like a URL and is one
abbrev pub is_link : Env → List ℕ → Bool
is_link env w = (starts_with http w || is_other_scheme w) && env.is_url w

-- The words of a line, and of all lines, that are not URLs once their punctuation is off.
abbrev pub no_link_words : Env → List (List ℕ) → Bool
no_link_words env [] = true
no_link_words env (w ∷ ws) = not (is_link env (split_punctuation w).1) && no_link_words env ws

abbrev pub no_link_lines : Env → List (List ℕ) → Bool
no_link_lines env [] = true
no_link_lines env (l ∷ ls) = no_link_words env (split 32 l) && no_link_lines env ls

-- No word of the body is a URL.
abbrev pub no_links : Env → List ℕ → Bool
no_links env body = no_link_lines env (split 10 body)

module _ (env : Env) (flags : Flags) where
  url_lem : (w : List ℕ) → is_link env w ≡ false → url_of env w flags ≡ none
  unfolding parse_http_url
  url_lem w h = elim (Bool-cases (starts_with http w)) [
    | inl e ↦ let f : env.is_url w ≡ false = ground arith in rw e (rw f refl)
    | inr e ↦ let f : (is_other_scheme w && env.is_url w) ≡ false = ground arith in rw e (rw f refl)
  ]

  word_lem :
      (dst : Node) (w : List ℕ)
      → all is_plain w ≡ true
      → is_link env w ≡ false
      → parse_word env dst w flags ≡ add_string dst w
  unfolding parse_word
  word_lem dst [] h u = refl
  word_lem dst (c ∷ cs) h u =
      let f : (c == 62) ≡ false = ground arith in
      let k : count_gt (c ∷ cs) ≡ 0 = rw f refl in
      ap (λ n. word_after env dst (c ∷ cs) flags (drop n (c ∷ cs))) k
      ∙ ap (λ n. with_url dst (c ∷ cs) n (url_of env (c ∷ cs) flags)) k
      ∙ ap (with_url dst (c ∷ cs) 0) (url_lem (c ∷ cs) u)

  inner_lem :
      (dst : Node) (orig w : List ℕ) (lead trail : ℕ)
      → all is_plain w ≡ true
      → is_link env w ≡ false
      → parse_inner env flags dst orig w lead trail ≡ (add_string dst w, trail)
  inner_lem dst orig [] lead trail h u = ap (λ d. (d, trail)) (word_lem dst [] refl u)
  inner_lem dst orig (c ∷ cs) lead trail h u =
      let f : (c == 62) ≡ false = ground arith in
      let g : (c == 35 && not flags.quoted) ≡ false = ground arith in
      rw g (rw f (ap (λ d. (d, trail)) (word_lem dst (c ∷ cs) h u)))

  char_lem : (dst : Node) (c : ℕ) → content (add_char dst c) ≡ content dst ++ chars (edge c)
  char_lem dst c = elim (Bool-cases (c == 0)) [
    | inl e ↦ rw e (sym (append-nil (content dst)))
    | inr e ↦ rw e (add_assign-content dst dst (c ∷ [])).1
  ]

  parts_lem :
      (dst : Node) (orig : List ℕ) (r : ℕ × List ℕ × ℕ)
      → all is_plain r.1 ≡ true
      → is_link env r.1 ≡ false
      → content (parse_split env flags dst orig r) ≡ content dst ++ chars (joined r)
  parts_lem dst orig (lead, word, trail) h u =
      let d = add_char dst lead in
      ap (λ x. content (add_char x.0 x.1)) (inner_lem d orig word lead trail h u)
      ∙ char_lem (add_string d word) trail
      ∙ ap (λ l. l ++ chars (edge trail)) (add_assign-content d d word).1
      ∙ append_assoc (content d) (chars word) (chars (edge trail))
      ∙ ap (λ l. l ++ (chars word ++ chars (edge trail))) (char_lem dst lead)
      ∙ append_assoc (content dst) (chars (edge lead)) (chars word ++ chars (edge trail))
      ∙ ap (λ l. content dst ++ l)
          (ap (λ l. chars (edge lead) ++ l) (sym (chars-append word (edge trail)))
            ∙ sym (chars-append (edge lead) (word ++ edge trail)))

  split_lem :
      (dst : Node) (w : List ℕ)
      → all is_plain w ≡ true
      → is_link env (split_punctuation w).1 ≡ false
      → content (parse_split env flags dst w (split_punctuation w)) ≡ content dst ++ chars w
  split_lem dst w h u =
      let (k, l) = split_punctuation_lem w h in
      parts_lem dst w (split_punctuation w) l u ∙ ap (λ m. content dst ++ chars m) k

  words_lem :
      (dst : Node) (ws : List (List ℕ))
      → all_pieces is_plain ws ≡ true
      → no_link_words env ws ≡ true
      → content (parse_words env flags dst ws) ≡ content dst ++ glued_rest (Item.char 32) ws
  words_lem dst [] h u = sym (append-nil (content dst))
  words_lem dst (w ∷ ws) h u =
      let d = add_string dst (32 ∷ []) in
      words_lem (parse_split env flags d w (split_punctuation w)) ws (ground arith) (ground arith)
      ∙ ap (λ l. l ++ glued_rest (Item.char 32) ws)
          (split_lem d w (ground arith) (ground arith)
            ∙ ap (λ l. l ++ chars w) (add_assign-content dst dst (32 ∷ [])).1)
      ∙ append_assoc (content dst ++ Item.char 32 ∷ []) (chars w) (glued_rest (Item.char 32) ws)
      ∙ append_assoc (content dst) (Item.char 32 ∷ []) (chars w ++ glued_rest (Item.char 32) ws)

  first_lem :
      (dst : Node) (ws : List (List ℕ))
      → all_pieces is_plain ws ≡ true
      → no_link_words env ws ≡ true
      → content (parse_first env flags dst ws) ≡ content dst ++ glued (Item.char 32) ws
  first_lem dst [] h u = sym (append-nil (content dst))
  first_lem dst (w ∷ ws) h u =
      words_lem (parse_split env flags dst w (split_punctuation w)) ws (ground arith) (ground arith)
      ∙ ap (λ l. l ++ glued_rest (Item.char 32) ws) (split_lem dst w (ground arith) (ground arith))
      ∙ append_assoc (content dst) (chars w) (glued_rest (Item.char 32) ws)

  line_lem :
      (dst : Node) (l : List ℕ)
      → all is_plain l ≡ true
      → no_link_words env (split 32 l) ≡ true
      → content (parse_line_fragment env flags dst l) ≡ content dst ++ chars l
  unfolding parse_line_fragment
  line_lem dst [] h u = sym (append-nil (content dst))
  line_lem dst (c ∷ cs) h u =
      first_lem dst (split 32 (c ∷ cs)) (all_pieces-split is_plain 32 (c ∷ cs) h) u
      ∙ ap (λ l. content dst ++ l) (glued-split (Item.char 32) 32 (c ∷ cs) ∙ spaces_lem (c ∷ cs))

  lines_lem :
      (dst : Node) (ls : List (List ℕ))
      → all_pieces is_plain ls ≡ true
      → no_link_lines env ls ≡ true
      → content (parse_lines env flags dst ls)
        ≡ content dst ++ glued_rest (Item.leaf Node.newline) ls
  lines_lem dst [] h u = sym (append-nil (content dst))
  lines_lem dst (l ∷ ls) h u =
      let g = Item.leaf Node.newline in
      let d = add_assign dst Node.newline in
      lines_lem (parse_line_fragment env flags d l) ls (ground arith) (ground arith)
      ∙ ap (λ m. m ++ glued_rest g ls)
          (line_lem d l (ground arith) (ground arith)
            ∙ ap (λ m. m ++ chars l) (add_assign-content dst Node.newline []).0)
      ∙ append_assoc (content dst ++ g ∷ []) (chars l) (glued_rest g ls)
      ∙ append_assoc (content dst) (g ∷ []) (chars l ++ glued_rest g ls)

  all_lem :
      (dst : Node) (ls : List (List ℕ))
      → all_pieces is_plain ls ≡ true
      → no_link_lines env ls ≡ true
      → content (parse_all env flags dst ls) ≡ content dst ++ glued (Item.leaf Node.newline) ls
  all_lem dst [] h u = sym (append-nil (content dst))
  all_lem dst (l ∷ ls) h u =
      let g = Item.leaf Node.newline in
      lines_lem (parse_line_fragment env flags dst l) ls (ground arith) (ground arith)
      ∙ ap (λ m. m ++ glued_rest g ls) (line_lem dst l (ground arith) (ground arith))
      ∙ append_assoc (content dst) (chars l) (glued_rest g ls)

  -- A plain fragment is appended to a body as it is.
  pub content-parse_fragment :
      (dst : Node) (s : List ℕ)
      → all is_plain s ≡ true
      → no_links env s ≡ true
      → content (parse_fragment env flags dst s) ≡ content dst ++ map item s
  unfolding parse_fragment
  content-parse_fragment dst [] h u = sym (append-nil (content dst))
  content-parse_fragment dst (c ∷ cs) h u =
      all_lem dst (split 10 (c ∷ cs)) (all_pieces-split is_plain 10 (c ∷ cs) h) u
      ∙ ap (λ l. content dst ++ l) (glued-split (Item.leaf Node.newline) 10 (c ∷ cs))
