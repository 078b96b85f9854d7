-- ===== src/PostBody/Append/Content.antt =====
-- What is appended to a post body is its content, in order (common/src/payloads/post_body.rs).
use shamichan.Prelude.{
  ℕ, ◌≡◌, refl, ap, ap₂, sym, ◌∙◌, List, [], ◌∷◌, ◌++◌, map, some, append-nil, append_assoc, arith,
  Option-cases, inl, inr,
}
use shamichan.PostBody.Node.{Node, Nodes, nil, cons}
use shamichan.PostBody.Nodes.{◌++◌ as ◌+++◌}
use shamichan.PostBody.Append.{
  View, view, as_text, last_text, set_last, add_text, push_text, push_first, extend, add,
  add_assign, add_plain, add_string,
}

-- The content of a body: its characters and its other nodes, without the grouping into children.
pub data Item : Type 0 where
  char : ℕ → Item
  leaf : Node → Item

abbrev mutual
  pub content : Node → List Item
  content Node.empty = []
  content (Node.text s) = map Item.char s
  content (Node.children ns) = contents ns
  content n = Item.leaf n ∷ []

  pub contents : Nodes → List Item
  contents nil = []
  contents (cons n ns) = content n ++ contents ns

abbrev view_content : View → Node → List Item
view_content View.is_empty n = []
view_content (View.is_text s) n = map Item.char s
view_content (View.is_children ns) n = contents ns
view_content View.is_other n = Item.leaf n ∷ []

content-view : (n : Node) → content n ≡ view_content (view n) n
content-view Node.empty = refl
content-view Node.newline = refl
content-view (Node.children ns) = refl
content-view (Node.text s) = refl
content-view (Node.post_link a b c) = refl
content-view (Node.command c) = refl
content-view (Node.url s) = refl
content-view (Node.reference a b) = refl
content-view (Node.embed p s) = refl
content-view (Node.code s) = refl
content-view (Node.spoiler n) = refl
content-view (Node.bold n) = refl
content-view (Node.italic n) = refl
content-view (Node.quoted n) = refl
content-view (Node.pending p) = refl

contents-append : (v w : Nodes) → contents (v +++ w) ≡ contents v ++ contents w
contents-append nil w = refl
contents-append (cons n v) w =
    ap (λ l. content n ++ l) (contents-append v w)
    ∙ sym (append_assoc (content n) (contents v) (contents w))

map-append : (s t : List ℕ) → map Item.char (s ++ t) ≡ map Item.char s ++ map Item.char t
map-append [] t = refl
map-append (c ∷ s) t = ap (λ l. Item.char c ∷ l) (map-append s t)

text-content :
    (w : View) (n : Node) (t : List ℕ) → as_text w ≡ some t → view_content w n ≡ map Item.char t
text-content View.is_empty n t e = absurd (ground arith)
text-content View.is_other n t e = absurd (ground arith)
text-content (View.is_children ns) n t e = absurd (ground arith)
text-content (View.is_text s) n t e = let same : s ≡ t = cc in ap (map Item.char) same

set_last-contents :
    (v : Nodes) (t s : List ℕ)
    → last_text v ≡ some t
    → contents (set_last v (Node.text (t ++ s))) ≡ contents v ++ map Item.char s
set_last-contents nil t s e = absurd (ground arith)
set_last-contents (cons n nil) t s e =
    append-nil (map Item.char (t ++ s))
    ∙ map-append t s
    ∙ ap (λ l. l ++ map Item.char s)
        (sym (append-nil (content n) ∙ content-view n ∙ text-content (view n) n t e))
set_last-contents (cons n (cons m ns)) t s e =
    ap (λ l. content n ++ l) (set_last-contents (cons m ns) t s e)
    ∙ sym (append_assoc (content n) (contents (cons m ns)) (map Item.char s))

push-contents : (v : Nodes) (n : Node) → contents (v +++ cons n nil) ≡ contents v ++ content n
push-contents v n =
    contents-append v (cons n nil) ∙ ap (λ l. contents v ++ l) (append-nil (content n))

push_text-contents :
    (v : Nodes) (s : List ℕ) → contents (push_text v s) ≡ contents v ++ map Item.char s
unfolding push_text
push_text-contents v s = elim (Option-cases (last_text v)) [
  | inl e ↦ ap (λ o. contents (add_text v s o)) e ∙ push-contents v (Node.text s)
  | inr (t, e) ↦ ap (λ o. contents (add_text v s o)) e ∙ set_last-contents v t s e
]

push_first-contents :
    (v : Nodes) (n : Node) (w : View)
    → content n ≡ view_content w n
    → contents (push_first v n w) ≡ contents v ++ content n
push_first-contents v n (View.is_text s) e =
    push_text-contents v s ∙ ap (λ l. contents v ++ l) (sym e)
push_first-contents v n View.is_empty e = push-contents v n
push_first-contents v n View.is_other e = push-contents v n
push_first-contents v n (View.is_children ns) e = push-contents v n

extend-contents : (v ns : Nodes) → contents (extend v ns) ≡ contents v ++ contents ns
unfolding extend
extend-contents v nil = sym (append-nil (contents v))
extend-contents v (cons n ns) =
    contents-append (push_first v n (view n)) ns
    ∙ ap (λ l. l ++ contents ns) (push_first-contents v n (view n) (content-view n))
    ∙ append_assoc (contents v) (content n) (contents ns)

pair-contents : (d n : Node) → contents (cons d (cons n nil)) ≡ content d ++ content n
pair-contents d n = ap (λ l. content d ++ l) (append-nil (content n))

add-content :
    (v w : View) (d n : Node)
    → content d ≡ view_content v d
    → content n ≡ view_content w n
    → content (add v w d n) ≡ content d ++ content n
add-content v View.is_empty d n a b = sym (ap (λ l. content d ++ l) b ∙ append-nil (content d))
add-content View.is_empty View.is_other d n a b = ap (λ l. l ++ content n) (sym a)
add-content View.is_empty (View.is_text s) d n a b = ap (λ l. l ++ content n) (sym a)
add-content View.is_empty (View.is_children ns) d n a b = ap (λ l. l ++ content n) (sym a)
add-content (View.is_text s) (View.is_text t) d n a b = map-append s t ∙ ap₂ ◌++◌ (sym a) (sym b)
add-content (View.is_text s) View.is_other d n a b = pair-contents d n
add-content (View.is_text s) (View.is_children ns) d n a b = pair-contents d n
add-content View.is_other View.is_other d n a b = pair-contents d n
add-content View.is_other (View.is_text s) d n a b = pair-contents d n
add-content View.is_other (View.is_children ns) d n a b = pair-contents d n
add-content (View.is_children v) (View.is_children ns) d n a b =
    extend-contents v ns ∙ ap₂ ◌++◌ (sym a) (sym b)
add-content (View.is_children v) (View.is_text s) d n a b =
    push_text-contents v s ∙ ap₂ ◌++◌ (sym a) (sym b)
add-content (View.is_children v) View.is_other d n a b =
    push-contents v n ∙ ap (λ l. l ++ content n) (sym a)

add_plain-content :
    (v : View) (d : Node) (s : List ℕ)
    → content d ≡ view_content v d
    → content (add_plain v d s) ≡ content d ++ map Item.char s
unfolding add_assign
add_plain-content (View.is_text t) d s a = map-append t s ∙ ap (λ l. l ++ map Item.char s) (sym a)
add_plain-content (View.is_children v) d s a =
    push_text-contents v s ∙ ap (λ l. l ++ map Item.char s) (sym a)
add_plain-content View.is_empty d s a =
    add-content (view d) (View.is_text s) d (Node.text s) (content-view d) refl
add_plain-content View.is_other d s a =
    add-content (view d) (View.is_text s) d (Node.text s) (content-view d) refl

-- Appending a node, or a string, to a body appends its characters and other nodes to those of the
-- body, in order, and changes nothing else: merging adjacent texts and extending children lose nothing.
pub add_assign-content :
    (dst rhs : Node) (s : List ℕ)
    → (content (add_assign dst rhs) ≡ content dst ++ content rhs)
      × (content (add_string dst s) ≡ content dst ++ map Item.char s)
unfolding add_assign add_string
add_assign-content dst rhs s = (
  add-content (view dst) (view rhs) dst rhs (content-view dst) (content-view rhs),
  add_plain-content (view dst) dst s (content-view dst),
)
