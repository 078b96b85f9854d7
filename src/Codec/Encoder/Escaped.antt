-- ===== src/Codec/Encoder/Escaped.antt =====
-- What the escaper writes, byte by byte.
use shamichan.Prelude.{
  ℕ, zero, suc, ◌≤◌, ◌≡◌, refl, sym, ap, ◌∙◌, List, [], ◌∷◌, ◌++◌, Option, none, some,
  if◌then◌else◌, ◌==◌, length, take, drop, append-nil, append_assoc, Bool-cases, inl, inr, true,
  false, arith,
}
use mathlib.Core.Option
use mathlib.Core.List.{flatten}
use shamichan.Codec.Encoder.{
  header, escape, position, escaper_round, escaper_loop, escaper_write, serialize_into,
}

-- Every header byte is followed by the escape byte.
unfoldable pub escaped : List ℕ → List ℕ
escaped [] = []
escaped (b ∷ bs) = if b == header then header ∷ escape ∷ escaped bs else b ∷ escaped bs

-- A byte that is no header joins the run that the round copies.
round_shift :
    (w : List ℕ) (b : ℕ) (bs : List ℕ) (p : Option ℕ) (rest : List ℕ → List ℕ → List ℕ)
    → escaper_round w (b ∷ bs) (Option.map suc p) rest ≡ escaper_round (w ++ b ∷ []) bs p rest
round_shift w b bs none rest = sym (append_assoc w (b ∷ []) bs)
round_shift w b bs (some i) rest =
    ap (λ v. rest (v ++ header ∷ escape ∷ []) (drop (suc i) bs))
      (sym (append_assoc w (b ∷ []) (take i bs)))

plain_byte :
    (fuel : ℕ) (w : List ℕ) (b : ℕ) (bs : List ℕ)
    → (b == header) ≡ false
    → escaper_loop (suc fuel) w (b ∷ bs) ≡ escaper_loop (suc fuel) (w ++ b ∷ []) bs
unfolding escaper_loop position
plain_byte fuel w b [] e = rw (e, escaper_loop)
plain_byte fuel w b (c ∷ bs) e =
    rw (e, escaper_loop) (round_shift w b (c ∷ bs) (position (c ∷ bs)) (escaper_loop fuel))

header_byte :
    (fuel : ℕ) (w : List ℕ) (b : ℕ) (bs : List ℕ)
    → (b == header) ≡ true
    → escaper_loop (suc fuel) w (b ∷ bs) ≡ escaper_loop fuel (w ++ header ∷ escape ∷ []) bs
unfolding escaper_loop position
header_byte fuel w b bs e =
    rw (e, escaper_loop) (ap (λ v. escaper_loop fuel (v ++ header ∷ escape ∷ []) bs) (append-nil w))

-- With a round for each byte the loop writes the escaped text behind what was written before.
escaper_loop-escaped :
    (buf : List ℕ) (fuel : ℕ) (w : List ℕ)
    → length buf ≤ fuel
    → escaper_loop fuel w buf ≡ w ++ escaped buf
unfolding escaped
escaper_loop-escaped [] fuel w h = unfold escaper_loop in sym (append-nil w)
escaper_loop-escaped (b ∷ bs) zero w h = absurd (omega arith)
escaper_loop-escaped (b ∷ bs) (suc fuel) w h = elim (Bool-cases (b == header)) [
  | inl e ↦ rw e (
      header_byte fuel w b bs e
      ∙ escaper_loop-escaped bs fuel (w ++ header ∷ escape ∷ []) (omega arith)
      ∙ append_assoc w (header ∷ escape ∷ []) (escaped bs))
  | inr e ↦ rw e (
      plain_byte fuel w b bs e
      ∙ escaper_loop-escaped bs (suc fuel) (w ++ b ∷ []) (omega arith)
      ∙ append_assoc w (b ∷ []) (escaped bs))
]

pub escaper_write-escaped : (w buf : List ℕ) → escaper_write w buf ≡ w ++ escaped buf
unfolding escaper_write
escaper_write-escaped w buf = escaper_loop-escaped buf (length buf) w (omega arith)

pub escaped-append : (xs ys : List ℕ) → escaped (xs ++ ys) ≡ escaped xs ++ escaped ys
unfolding escaped
escaped-append [] ys = refl
escaped-append (x ∷ xs) ys = ground (arith, escaped-append xs ys)

-- However the payload is cut into pieces, the escaped whole is written.
pub serialize_into-flatten :
    (w : List ℕ) (payload : List (List ℕ))
    → serialize_into w payload ≡ w ++ escaped (flatten payload)
unfolding serialize_into flatten
serialize_into-flatten w [] = unfold escaped in sym (append-nil w)
serialize_into-flatten w (p ∷ ps) =
    serialize_into-flatten (escaper_write w p) ps
    ∙ ap (λ v. v ++ escaped (flatten ps)) (escaper_write-escaped w p)
    ∙ append_assoc w (escaped p) (escaped (flatten ps))
    ∙ ap (◌++◌ w) (sym (escaped-append p (flatten ps)))
