-- ===== src/Client/Posting/Accepted.antt =====
-- The messages of the post form's agent as the server's handlers take them for an open post, with
-- their refusals (client/src/post/posting.rs and server/src/client/message_handler.rs).
use shamichan.Prelude.{
  ℕ, ◌≡◌, ◌≢◌, ◌≤◌, refl, ap, sym, ◌∙◌, List, [], ◌∷◌, ◌++◌, Option, none, some, false, ◌==◌, ◌&&◌,
  if◌then◌else◌, ltb, length, arith, Bool-cases, inl, inr,
}
use shamichan.PostBody.Text.{TextPatch}
use shamichan.PostBody.Text
use shamichan.PostBody.Text.RoundTrip.{apply-new}
use shamichan.Feeds.Index.{is_empty}
use shamichan.Server.Client.Posts.{Modified, push, pop, splice}
use shamichan.Server.Client.Posts.Edited.{nop_lem, insert-new, splice-new}
use shamichan.Client.Posting.{Sent, change}
use shamichan.Client.Posting.Change.{remote, remote-change}
use shamichan.Client.Posting.Served.{IsEdit, change-IsEdit}

-- A modified body, unless the modification failed or the body is too long.
abbrev pub within : Modified → Option (List ℕ)
within (b, some e) = none
within (b, none) = if ltb 2000 (length b) then none else some b

-- The body of the open post after a message that the handlers take, none where they refuse it. A post
-- that is inserted or closed has no text.
abbrev pub served : List ℕ → Sent → Option (List ℕ)
served b (Sent.insert_post req) = some []
served b (Sent.append c) = within (push c b)
served b Sent.backspace = within (pop b, none)
served b (Sent.patch_post_body p) =
    if ltb 2000 (length p.insert)
    then none
    else if is_empty p.insert && p.remove == 0
    then none
    else within (splice p b)
served b Sent.close_post = some []

abbrev pub onto : Option (List ℕ) → Sent → Option (List ℕ)
onto none m = none
onto (some b) m = served b m

-- The body after all of the messages, none from the first one on that is refused.
abbrev pub served_all : Option (List ℕ) → List Sent → Option (List ℕ)
served_all o [] = o
served_all o (m ∷ ms) = served_all (onto o m) ms

pub served_all-append :
    (o : Option (List ℕ)) (ms : List Sent) (m : Sent)
    → served_all o (ms ++ m ∷ []) ≡ onto (served_all o ms) m
served_all-append o [] m = refl
served_all-append o (n ∷ ms) m = served_all-append (onto o n) ms m

within_lem : (text : List ℕ) → length text ≤ 2000 → within (text, none) ≡ some text
within_lem text h = let b : ltb 2000 (length text) ≡ false = ground arith in rw b refl

served-patch :
    (old text : List ℕ)
    → length old ≤ 2000
    → length text ≤ 2000
    → old ≢ text
    → served old (Sent.patch_post_body (Text.new old text)) ≡ some text
served-patch old text h k ne =
    let p = Text.new old text in
    let a : ltb 2000 (length p.insert) ≡ false = ground (arith, insert-new old text) in
    elim (Bool-cases (is_empty p.insert && p.remove == 0)) [
      | inl i ↦ absurd (ne (sym (nop_lem p old i) ∙ apply-new [] old text (omega arith)))
      | inr i ↦ rw a (rw i (ap within (splice-new old text h k) ∙ within_lem text k))
    ]

served-IsEdit :
    (old text : List ℕ) (m : Sent)
    → length old ≤ 2000
    → length text ≤ 2000
    → old ≢ text
    → IsEdit old text m
    → remote old m ≡ text
    → served old m ≡ some text
served-IsEdit old text (Sent.append c) h k ne i r = ap (λ t. within (t, none)) r ∙ within_lem text k
served-IsEdit old text Sent.backspace h k ne i r = ap (λ t. within (t, none)) r ∙ within_lem text k
served-IsEdit old text (Sent.patch_post_body q) h k ne i r =
    ap (λ p. served old (Sent.patch_post_body p)) i ∙ served-patch old text h k ne
served-IsEdit old text (Sent.insert_post req) h k ne i r = absurd i
served-IsEdit old text Sent.close_post h k ne i r = absurd i

-- The message for another text is taken, and leads to that text.
pub served-change :
    (old text : List ℕ)
    → length old ≤ 2000
    → length text ≤ 2000
    → old ≢ text
    → served old (change old text) ≡ some text
served-change old text h k ne =
    served-IsEdit old text (change old text) h k ne (change-IsEdit old text)
      (remote-change old text (omega arith))
