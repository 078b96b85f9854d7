-- ===== src/Server/Body/Links/Reads.antt =====
-- The words that are read as links (server/src/body/links.rs: `parse_links_inner`).
use shamichan.Prelude.{
  ℕ, zero, suc, ◌^◌, ◌-◌, ◌≡◌, refl, ap, sym, ◌∙◌, eqb→eq, List, [], ◌∷◌, ◌++◌, Option, none, some,
  Bool, true, ◌==◌, ◌&&◌, ltb, arith, Bool-cases, inl, inr,
}
use shamichan.Decimal.{parse_up_to, is_digit}
use shamichan.Server.Body.{Env, break, utf8_length}
use shamichan.Server.Body.Links.{
  Link, post_link, reference, parse_post_link, located, named, parse_reference, scan,
  parse_links_inner,
}

-- Signs of a quotation
abbrev pub signs : ℕ → List ℕ
signs zero = []
signs (suc n) = 62 ∷ signs n

-- How a word reads as a link.
pub data Reads (env : Env) (word : List ℕ) : Link → Type 0 where
  reads_post :
      (digits : List ℕ) (id extra : ℕ)
      → word ≡ signs (suc (suc extra)) ++ digits
      → parse_up_to (2 ^ 64 - 1) digits ≡ some id
      → Reads env word (post_link id (env.location id) extra)
  reads_reference :
      (label : List ℕ) (extra : ℕ)
      → word ≡ signs (suc (suc (suc extra))) ++ 47 ∷ (label ++ 47 ∷ [])
      → Reads env word (reference label extra)

-- The reading of a word, where there is one.
abbrev pub ReadsAny : Env → List ℕ → Option Link → Type 0
ReadsAny env word none = Unit
ReadsAny env word (some l) = Reads env word l

signs_shift : (k : ℕ) (cs : List ℕ) → signs k ++ 62 ∷ cs ≡ signs (suc k) ++ cs
signs_shift zero cs = refl
signs_shift (suc k) cs = ap (λ l. 62 ∷ l) (signs_shift k cs)

abbrev Starts : (ℕ → Bool) → List ℕ → Type 0
Starts p [] = Unit
Starts p (c ∷ cs) = p c ≡ true

break_lem :
    (p : ℕ → Bool) (s : List ℕ) → ((break p s).0 ++ (break p s).1 ≡ s) × Starts p (break p s).1
break_lem p [] = (refl, tt)
break_lem p (c ∷ cs) = elim (Bool-cases (p c)) [
  | inl e ↦ rw e (refl, e)
  | inr e ↦ let (k, l) = break_lem p cs in rw e (ap (λ m. c ∷ m) k, l)
]

Reads-located :
    (env : Env) (word digits : List ℕ) (extra : ℕ) (o : Option ℕ)
    → word ≡ signs (suc (suc extra)) ++ digits
    → parse_up_to (2 ^ 64 - 1) digits ≡ o
    → ReadsAny env word (located env extra o)
Reads-located env word digits extra none w e = tt
Reads-located env word digits extra (some id) w e = reads_post digits id extra w e

Reads-named :
    (env : Env) (word : List ℕ) (r : List ℕ × List ℕ) (extra : ℕ)
    → word ≡ signs (suc (suc (suc extra))) ++ 47 ∷ (r.0 ++ r.1)
    → Starts (λ c. c == 47) r.1
    → ReadsAny env word (named r extra)
Reads-named env word (name, []) extra w s = tt
Reads-named env word (name, c ∷ d ∷ cs) extra w s = tt
Reads-named env word (name, c ∷ []) extra w s = elim (Bool-cases (ltb 1 (utf8_length name))) [
  | inl e ↦ rw e (
      reads_reference name extra
        (w ∙ ap (λ d. signs (suc (suc (suc extra))) ++ 47 ∷ (name ++ d ∷ [])) (eqb→eq c 47 s)))
  | inr e ↦ rw e tt
]

Reads-parse_reference :
    (env : Env) (word cs : List ℕ) (extra : ℕ)
    → word ≡ signs (suc (suc extra)) ++ 47 ∷ cs
    → ReadsAny env word (parse_reference cs extra)
unfolding parse_reference
Reads-parse_reference env word cs zero w = tt
Reads-parse_reference env word cs (suc extra) w =
    let (k, l) = break_lem (λ c. c == 47) cs in
    Reads-named env word (break (λ c. c == 47) cs) extra
      (w ∙ ap (λ m. signs (suc (suc (suc extra))) ++ 47 ∷ m) (sym k)) l

Reads-scan :
    (env : Env) (word cs : List ℕ) (extra : ℕ)
    → word ≡ signs (suc (suc extra)) ++ cs
    → ReadsAny env word (scan env cs extra)
unfolding scan parse_post_link
Reads-scan env word [] extra w = tt
Reads-scan env word (c ∷ cs) extra w = elim (Bool-cases (c == 62)) [
  | inl e ↦ rw e (
      Reads-scan env word cs (suc extra) (
        w
        ∙ ap (λ d. signs (suc (suc extra)) ++ d ∷ cs) (eqb→eq c 62 e)
        ∙ signs_shift (suc (suc extra)) cs))
  | inr e ↦ elim (Bool-cases (is_digit c)) [
    | inl f ↦ rw e (rw f (Reads-located env word (c ∷ cs) extra _ w refl))
    | inr f ↦ elim (Bool-cases (c == 47)) [
      | inl g ↦ rw e (
          rw f (
            rw g (
              Reads-parse_reference env word cs extra
                (w ∙ ap (λ d. signs (suc (suc extra)) ++ d ∷ cs) (eqb→eq c 47 g)))))
      | inr g ↦ rw e (rw f (rw g tt))
    ]
  ]
]

pub Reads-parse_links_inner :
    (env : Env) (word : List ℕ) → ReadsAny env word (parse_links_inner env word)
unfolding parse_links_inner
Reads-parse_links_inner env [] = tt
Reads-parse_links_inner env (c ∷ []) = tt
Reads-parse_links_inner env (c ∷ d ∷ cs) = elim (Bool-cases (c == 62 && d == 62)) [
  | inl e ↦ rw e (
      Reads-scan env (c ∷ d ∷ cs) cs 0 (
        ap (λ a. a ∷ d ∷ cs) (eqb→eq c 62 (ground arith))
        ∙ ap (λ b. 62 ∷ b ∷ cs) (eqb→eq d 62 (ground arith))))
  | inr e ↦ rw e tt
]
