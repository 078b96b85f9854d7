-- ===== src/PostBody/Text/RoundTrip.antt =====
-- A patch made from two texts takes the one to the other.
use shamichan.Prelude.{
  ℕ, ◌-◌, ◌^◌, ◌≤◌, ◌<◌, ◌≡◌, refl, sym, ap, ap₂, ◌∙◌, List, [], ◌∷◌, ◌++◌, reverse, arith, length,
  take, drop, Bool-cases, inl, inr, ◌==◌, eqb→eq, length-reverse, length-drop, drop-reverse,
  take-append-drop,
}
use shamichan.PostBody.Text.{TextPatch, diff_i, new, apply, as_u16, estimate_new_size}

pub diff_i-le_left : (xs ys : List ℕ) → diff_i xs ys ≤ length xs
unfolding diff_i
diff_i-le_left [] ys = omega arith
diff_i-le_left (x ∷ xs) [] = omega arith
diff_i-le_left (x ∷ xs) (y ∷ ys) = ground (arith, diff_i-le_left xs ys)

pub diff_i-le_right : (xs ys : List ℕ) → diff_i xs ys ≤ length ys
unfolding diff_i
diff_i-le_right [] ys = omega arith
diff_i-le_right (x ∷ xs) [] = omega arith
diff_i-le_right (x ∷ xs) (y ∷ ys) = ground (arith, diff_i-le_right xs ys)

-- What stands before the first difference is common to both.
pub take-diff_i : (xs ys : List ℕ) → take (diff_i xs ys) xs ≡ take (diff_i xs ys) ys
unfolding diff_i
take-diff_i [] ys = refl
take-diff_i (x ∷ xs) [] = refl
take-diff_i (x ∷ xs) (y ∷ ys) = elim (Bool-cases (x == y)) [
  | inl e ↦ rw e (ap₂ ◌∷◌ (eqb→eq x y e) (take-diff_i xs ys))
  | inr e ↦ rw e
]

-- The common tail of two texts, cut off each of them.
common_tail :
    (xs ys : List ℕ)
    → let end = diff_i (reverse xs) (reverse ys) in
      drop (length xs - end) xs ≡ drop (length ys - end) ys
common_tail xs ys =
    let end = diff_i (reverse xs) (reverse ys) in
    let left : end ≤ length xs =
      omega (arith, diff_i-le_left (reverse xs) (reverse ys), length-reverse xs) in
    let right : end ≤ length ys =
      omega (arith, diff_i-le_right (reverse xs) (reverse ys), length-reverse ys) in
    drop-reverse end xs left
    ∙ ap reverse (take-diff_i (reverse xs) (reverse ys))
    ∙ sym (drop-reverse end ys right)

-- The middle of the old text replaced by that of the new one.
splice :
    (old text : List ℕ)
    → let start = diff_i old text in
      let end = diff_i (reverse (drop start old)) (reverse (drop start text)) in
      take start old
        ++ (take (length text - end - start) (drop start text)
            ++ drop (length old - end - start) (drop start old))
      ≡ text
splice old text =
    let start = diff_i old text in
    let end = diff_i (reverse (drop start old)) (reverse (drop start text)) in
    let e1 : length old - end - start ≡ length (drop start old) - end =
      omega (arith, length-drop start old) in
    let e2 : length text - end - start ≡ length (drop start text) - end =
      omega (arith, length-drop start text) in
    let tail = common_tail (drop start old) (drop start text) in
    let mid = take-append-drop (length (drop start text) - end) (drop start text) in
    ap₂ (λ a b. take start old ++ (take a (drop start text) ++ drop b (drop start old))) e2 e1
    ∙ ap (λ t. take start old ++ (take (length (drop start text) - end) (drop start text) ++ t))
        tail
    ∙ ap (λ t. take start old ++ t) mid
    ∙ ap (λ t. t ++ drop start text) (take-diff_i old text)
    ∙ take-append-drop start text

-- A patch made from an old text below 2 ^ 16 characters and any new text turns the old text, read
-- after `dst`, into `dst` and the new text.
pub apply-new :
    (dst old text : List ℕ) → length old < 2 ^ 16 → apply (new old text) dst old ≡ dst ++ text
unfolding new apply
apply-new dst old text h =
    let start = diff_i old text in
    let end = diff_i (reverse (drop start old)) (reverse (drop start text)) in
    let small : as_u16 start ≡ start = omega (arith, diff_i-le_left old text) in
    let small' : as_u16 (length old - end - start) ≡ length old - end - start = omega arith in
    let insert = take (length text - end - start) (drop start text) in
    ap₂ (λ a b. dst ++ (take a old ++ (insert ++ drop b (drop a old)))) small small'
    ∙ ap (◌++◌ dst) (splice old text)

-- An estimate above 2000 is the size of the text before the patch: no patch makes it larger.
pub estimate_new_size_lem :
    (p : TextPatch) (dst_size : ℕ)
    → 2000 < estimate_new_size p dst_size
    → estimate_new_size p dst_size ≡ dst_size
unfolding estimate_new_size
estimate_new_size_lem p dst_size h = ground arith
