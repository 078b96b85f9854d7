-- ===== src/Server/Client/Posts/Edited.antt =====
-- A client's edit of its open post (server/src/client/message_handler.rs).
use shamichan.Prelude.{
  ℕ, ◌≡◌, ◌≢◌, ◌≤◌, ◌<◌, ◌-◌, length-take, length-drop, take-append-drop, refl, ap, sym, ◌∙◌, List,
  [], ◌∷◌, none, some, true, false, ltb, ◌==◌, ◌^◌, ◌&&◌, length, drop, reverse, arith, Bool-cases,
  inl, inr,
}
use shamichan.PostBody.Text.{TextPatch, diff_i, as_u16, apply}
use shamichan.PostBody.Text
use shamichan.PostBody.Text.RoundTrip.{apply-new, diff_i-le_left}
use shamichan.Feeds.Index.{is_empty}
use shamichan.Server.Client.{MessageHandler, OpenPost, Effect, ok, do_send}
use shamichan.Server.Client.Posts.{patch_body, update_body, update_open, splice, body_set}

pub is_empty_lem : {A : Type 0} (xs : List A) → is_empty xs ≡ true → xs ≡ []
is_empty_lem [] h = refl
is_empty_lem (x ∷ xs) h = absurd (ground arith)

-- A patch that neither inserts nor removes leaves the text as it is.
pub nop_lem :
    (p : TextPatch) (b : List ℕ) → (is_empty p.insert && p.remove == 0) ≡ true → apply p [] b ≡ b
unfolding apply
nop_lem p b h =
    let a : p.insert ≡ [] = is_empty_lem p.insert (ground arith) in
    let z : p.remove ≡ 0 = ground arith in rw a (rw z (take-append-drop p.position b))

pub insert-new : (old text : List ℕ) → length (Text.new old text).insert ≤ length text
unfolding Text.new
insert-new old text =
    let start = diff_i old text in
    let end = diff_i (reverse (drop start old)) (reverse (drop start text)) in
    omega (arith, length-take (length text - end - start) (drop start text), length-drop start text)

pub position-new :
    (old text : List ℕ) → length old < 2 ^ 16 → (Text.new old text).position ≤ length old
unfolding Text.new
position-new old text h = omega (arith, diff_i-le_left old text)

pub splice-new :
    (old text : List ℕ)
    → length old ≤ 2000
    → length text ≤ 2000
    → splice (Text.new old text) old ≡ (text, none)
unfolding splice
splice-new old text h k =
    let a : ltb (length old) (Text.new old text).position ≡ false =
      ground (arith, position-new old text (omega arith)) in
    let b : ltb 2000 (length text) ≡ false = ground arith in
    rw a (rw (apply-new [] old text (omega arith)) (rw b refl))

-- The patch that leads from the body of the open post to another text is applied to it, and the text
-- is sent to the feed as the post's body, where the two differ and neither is longer than 2000
-- characters.
pub patch_body-new :
    (s : MessageHandler) (p : OpenPost) (text : List ℕ)
    → s.open_post ≡ some p
    → length p.body ≤ 2000
    → length text ≤ 2000
    → p.body ≢ text
    → patch_body s (Text.new p.body text)
      ≡ ok (
          do_send
            (record s { open_post = some (record p { body = text }) })
            (Effect.set_body p.feed p.page p.id text))
unfolding patch_body update_body
patch_body-new s p text e h k ne =
    let req = Text.new p.body text in
    let a : ltb 2000 (length req.insert) ≡ false = ground (arith, insert-new p.body text) in
    let b : ltb 2000 (length text) ≡ false = ground arith in
    elim (Bool-cases (is_empty req.insert && req.remove == 0)) [
      | inl i ↦ absurd (ne (sym (nop_lem req p.body i) ∙ apply-new [] p.body text (omega arith)))
      | inr i ↦ rw a (
          rw i (
            ap (update_open s (splice req)) e
            ∙ ap (body_set s p) (splice-new p.body text h k)
            ∙ rw b refl))
    ]
