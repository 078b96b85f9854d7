-- ===== src/Client/Posting/Change.antt =====
-- The body that one edit of the open post leads to
-- (client/src/post/posting.rs: `commit_text`).
use shamichan.Prelude.{
  ℕ, zero, suc, ◌+◌, ◌-◌, ◌^◌, ◌≡◌, ◌<◌, refl, ap, ap₂, sym, ◌∙◌, List, [], ◌∷◌, ◌++◌, some, true,
  false, ◌==◌, ◌&&◌, ltb, eqb→eq, length, take, get_elem?, arith, Bool-cases, inl, inr,
}
use shamichan.PostBody.Text.{TextPatch}
use shamichan.PostBody.Text
use shamichan.PostBody.Text.RoundTrip.{apply-new}
use shamichan.Server.Client.Posts.{push, pop, splice}
use shamichan.Server.Client.Posts.Edited.{position-new}
use shamichan.Client.Location.{text_eq}
use shamichan.Client.Posting.{Sent, change, by_append, init, last}

-- The body that a message makes of another one, as long as nothing refuses it.
abbrev pub remote : List ℕ → Sent → List ℕ
remote b (Sent.insert_post req) = []
remote b (Sent.append c) = (push c b).0
remote b Sent.backspace = pop b
remote b (Sent.patch_post_body p) = (splice p b).0
remote b Sent.close_post = []

pub text_eq→eq : (cs ds : List ℕ) → text_eq cs ds ≡ true → cs ≡ ds
text_eq→eq [] [] h = refl
text_eq→eq [] (d ∷ ds) h = absurd (ground arith)
text_eq→eq (c ∷ cs) [] h = absurd (ground arith)
text_eq→eq (c ∷ cs) (d ∷ ds) h =
    ap₂ ◌∷◌ (eqb→eq c d (ground arith)) (text_eq→eq cs ds (ground arith))

pub text_eq_refl : (cs : List ℕ) → text_eq cs cs ≡ true
text_eq_refl [] = refl
text_eq_refl (c ∷ cs) = ground (arith, text_eq_refl cs)

last_lem :
    (n : ℕ) (cs : List ℕ)
    → length cs ≡ suc n
    → (c : ℕ) × ((get_elem? cs n ≡ some c) × (take n cs ++ c ∷ [] ≡ cs))
last_lem n [] h = absurd (ground arith)
last_lem zero (c ∷ []) h = (c, (refl, refl))
last_lem zero (c ∷ d ∷ cs) h = absurd (ground arith)
last_lem (suc n) (c ∷ cs) h =
    let (d, (e, f)) = last_lem n cs (ground arith) in (d, (e, ap (λ l. c ∷ l) f))

pop_lem : (b : List ℕ) → pop b ≡ take (length b - 1) b
pop_lem [] = refl
pop_lem (c ∷ []) = refl
pop_lem (c ∷ d ∷ b) =
    let e : suc (length (d ∷ b) - 1) ≡ length (c ∷ d ∷ b) - 1 = omega arith in
    ap (λ l. c ∷ l) (pop_lem (d ∷ b)) ∙ ap (λ n. take n (c ∷ d ∷ b)) e

remote-patch :
    (old text : List ℕ)
    → length old < 2 ^ 16
    → remote old (Sent.patch_post_body (Text.new old text)) ≡ text
unfolding splice
remote-patch old text h =
    let ok : ltb (length old) (Text.new old text).position ≡ false =
      ground (arith, position-new old text) in
    rw (ok, remote) (apply-new [] old text h)

remote-by_append :
    (old text : List ℕ) (c : ℕ)
    → last text ≡ some c
    → old ++ c ∷ [] ≡ text
    → remote old (by_append (last text) old text) ≡ text
remote-by_append old text c e f = ap (λ o. remote old (by_append o old text)) e ∙ f

-- Of a body below 2 ^ 16 characters, the message for another text leads to that text.
pub remote-change : (old text : List ℕ) → length old < 2 ^ 16 → remote old (change old text) ≡ text
unfolding change
remote-change old text h =
    elim (Bool-cases (length text == length old + 1 && text_eq (init text) old)) [
      | inl e ↦
          let n : length text ≡ suc (length old) = ground arith in
          let m : length text - 1 ≡ length old = omega arith in
          let i : init text ≡ old = text_eq→eq (init text) old (ground arith) in
          let (c, (f, g)) = last_lem (length old) text n in
          rw e (
            remote-by_append old text c (ap (get_elem? text) m ∙ f)
              (ap (λ l. l ++ c ∷ []) (sym i ∙ ap (λ k. take k text) m) ∙ g))
      | inr e ↦ elim (Bool-cases (length old == length text + 1 && text_eq (init old) text)) [
        | inl f ↦ rw e (rw f (pop_lem old ∙ text_eq→eq (init old) text (ground arith)))
        | inr f ↦ rw e (rw f (remote-patch old text h))
      ]
    ]
