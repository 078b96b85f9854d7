-- ===== src/PostBody/Diff/RoundTrip.antt =====
-- A diff applied to the old body gives the new one.
use shamichan.Prelude.{
  if_pos, ◌↔◌, ◌⊎◌, inl, inr, subst, ℕ, suc, ◌^◌, ◌<◌, ◌≡◌, refl, sym, ap, ◌∙◌, List, [], Option,
  none, some, ite, arith, length,
}
use shamichan.PostBody.Text.{TextPatch}
use shamichan.PostBody.Text
use shamichan.PostBody.Text.RoundTrip.{apply-new}
use shamichan.PostBody.Node.{
  Node, Nodes, Patch, Patches, Node-discrete, Text-discrete, empty, newline, children, url, code,
  spoiler, bold, italic, quoted, replace, wrapped, nil, cons,
}
use shamichan.PostBody.Nodes
use shamichan.PostBody.Nodes.{
  ◌++◌, snoc_append, append_nil, get?-length, set-length, truncate_length, length_snoc,
}
use shamichan.PostBody.Diff.{
  ChildDiff, push_patch, children_patch, text_patch, wrap, replace_patch, diff, diff_children,
  Patched, rewrap, finish, truncate_to, apply_text, patch_at, patch, patch_children,
}

-- Every text, URL and code of the body is below 2 ^ 16 characters.
abbrev mutual
  pub Fits : Node → Type 0
  Fits (children ns) = AllFit ns
  Fits (Node.text s) = length s < 2 ^ 16
  Fits (url s) = length s < 2 ^ 16
  Fits (code s) = length s < 2 ^ 16
  Fits (spoiler n) = Fits n
  Fits (bold n) = Fits n
  Fits (italic n) = Fits n
  Fits (quoted n) = Fits n
  Fits _ = Unit {0}

  pub AllFit : Nodes → Type 0
  AllFit nil = Unit {0}
  AllFit (cons n ns) = Fits n × AllFit ns

-- No patch stands for equal bodies, and a patch leads from the old body to the new one.
abbrev pub Leads : Node → Node → Option Patch → Type 0
Leads old new none = old ≡ new
Leads old new (some p) = patch p old ≡ (new, none)

replace_patch-Leads : (old new : Node) → Leads old new (replace_patch old new)
unfolding patch
replace_patch-Leads old new =
    elim (Node-discrete old new) as (λ d. Leads old new (ite d none (some (replace new)))) [
      | yes e ↦ e
      | no _ ↦ refl
    ]

-- Nodes that hold a text, and nodes that wrap another.
text-Leads :
    (f : List ℕ → Node)
    → ((p : TextPatch) (s : List ℕ) → patch (Patch.text p) (f s) ≡ (f (apply_text p s), none))
    → (old new : List ℕ) → length old < 2 ^ 16
    → Leads (f old) (f new) (text_patch old new)
text-Leads f step old new h =
    elim (Text-discrete old new)
      as (λ d. Leads (f old) (f new) (ite d none (some (Patch.text (Text.new old new))))) [
        | yes e ↦ ap f e
        | no _ ↦ step (Text.new old new) old ∙ ap (λ t. (f t, none)) (apply-new [] old new h)
      ]

wrap-Leads :
    (f : Node → Node)
    → ((p : Patch) (n : Node) → patch (wrapped p) (f n) ≡ rewrap f (patch p n))
    → (old new : Node) (o : Option Patch) → Leads old new o
    → Leads (f old) (f new) (wrap o)
wrap-Leads f step old new none h = ap f h
wrap-Leads f step old new (some p) h = step p old ∙ ap (rewrap f) h

-- What the patches of the common positions make of the old list.
merged : Nodes → Nodes → Nodes
merged nil ns = nil
merged (cons o os) nil = cons o os
merged (cons o os) (cons n ns) = cons n (merged os ns)

-- The loop over two child lists behind a prefix that is done: its patches give the new children on
-- the common positions, and truncation and appending do the rest.
abbrev LeadAll : Nodes → Nodes → Nodes → Type 0
LeadAll pre os ns =
    let d = diff_children os ns (Nodes.length pre) in
    (patch_children d.patch (pre ++ os) ≡ (pre ++ merged os ns, none))
    × (truncate_to d.truncate (pre ++ merged os ns) ++ d.append ≡ pre ++ ns)

-- A successful patch of the child at the end of the prefix.
patch_at_lem :
    (pre : Nodes) (o n : Node) (os : Nodes) (p : Patch) (rest : Nodes → Patched Nodes)
    → patch p o ≡ (n, none)
    → patch_at
        (Nodes.length pre)
        (pre ++ cons o os)
        (Nodes.get? (pre ++ cons o os) (Nodes.length pre))
        (patch p)
        rest
      ≡ rest (pre ++ cons n os)
patch_at_lem pre o n os p rest h =
    ap (λ x. patch_at (Nodes.length pre) (pre ++ cons o os) x (patch p) rest) (get?-length pre o os)
    ∙ ap (λ x. patch_at (Nodes.length pre) (pre ++ cons o os) (some o) (λ _. x) rest) h
    ∙ ap rest (set-length pre o n os)

push_patch-Leads :
    (pre : Nodes) (o n : Node) (os m : Nodes) (d : ChildDiff) (x : Option Patch)
    → Leads o n x
    → patch_children d.patch (pre ++ cons n os) ≡ (pre ++ cons n m, none)
    → patch_children (push_patch (Nodes.length pre) x d).patch (pre ++ cons o os)
      ≡ (pre ++ cons n m, none)
unfolding patch
push_patch-Leads pre o n os m d none h a = ap (λ k. patch_children d.patch (pre ++ cons k os)) h ∙ a
push_patch-Leads pre o n os m d (some p) h a =
    patch_at_lem pre o n os p (patch_children d.patch) h ∙ a

push_patch_others :
    (i : ℕ) (x : Option Patch) (d : ChildDiff) (ns : Nodes)
    → truncate_to (push_patch i x d).truncate ns ++ (push_patch i x d).append
      ≡ truncate_to d.truncate ns ++ d.append
push_patch_others i none d ns = refl
push_patch_others i (some p) d ns = refl

step-LeadAll :
    (pre : Nodes) (o n : Node) (os ns : Nodes)
    → Leads o n (diff o n)
    → LeadAll (pre ++ cons n nil) os ns
    → LeadAll pre (cons o os) (cons n ns)
unfolding diff merged
step-LeadAll pre o n os ns h (a, b) =
    let m = merged os ns in
    let d = diff_children os ns (suc (Nodes.length pre)) in
    let a' : patch_children d.patch (pre ++ cons n os) ≡ (pre ++ cons n m, none) =
      rw (length_snoc, snoc_append pre n os, snoc_append pre n m) at a in
    let b' : truncate_to d.truncate (pre ++ cons n m) ++ d.append ≡ pre ++ cons n ns =
      rw (length_snoc, snoc_append pre n m, snoc_append pre n ns) at b in
    (
      push_patch-Leads pre o n os m d (diff o n) h a',
      push_patch_others (Nodes.length pre) (diff o n) d (pre ++ cons n m) ∙ b',
    )

-- From the loop's locals to the patch of the whole list.
children-Leads :
    (os ns m : Nodes) (ps : Patches) (t : Option ℕ) (app : Nodes)
    → patch_children ps os ≡ (m, none)
    → truncate_to t m ++ app ≡ ns
    → Leads (children os) (children ns) (children_patch ps t app)
unfolding patch
children-Leads os ns m nil none nil a b = ap children (ap (λ r. r.0) a ∙ sym (append_nil m) ∙ b)
children-Leads os ns m nil none (cons n app) a b =
    ap (λ r. rewrap children (finish none (cons n app) r)) a ∙ ap (λ k. (children k, none)) b
children-Leads os ns m nil (some k) app a b =
    ap (λ r. rewrap children (finish (some k) app r)) a ∙ ap (λ k. (children k, none)) b
children-Leads os ns m (cons i p ps) t app a b =
    ap (λ r. rewrap children (finish t app r)) a ∙ ap (λ k. (children k, none)) b

-- The ends of the loop: one of the lists, or both, are used up.
end-LeadAll : (pre os ns : Nodes) → (os ≡ nil) ⊎ (ns ≡ nil) → LeadAll pre os ns
unfolding diff merged patch
end-LeadAll pre nil nil h = (refl, append_nil _)
end-LeadAll pre nil (cons n ns) h = (refl, ap (λ k. k ++ cons n ns) (append_nil pre))
end-LeadAll pre (cons o os) nil h =
    (refl, append_nil _ ∙ truncate_length pre (cons o os) ∙ sym (append_nil pre))
end-LeadAll pre (cons o os) (cons n ns) h = absurd (ground arith)

mutual
  unfolding diff patch

  diff-Leads : (old new : Node) → Fits old → Leads old new (diff old new)
  diff-Leads empty empty h = refl
  diff-Leads newline newline h = refl
  diff-Leads (children old) (children new) h =
      let (a, b) = diff_children-LeadAll nil old new h in
      children-Leads old new (merged old new) _ _ _ a b
  diff-Leads (Node.text old) (Node.text new) h = text-Leads Node.text (λ p s. refl) old new h
  diff-Leads (url old) (url new) h = text-Leads url (λ p s. refl) old new h
  diff-Leads (code old) (code new) h = text-Leads code (λ p s. refl) old new h
  diff-Leads (spoiler old) (spoiler new) h =
      wrap-Leads spoiler (λ p n. refl) old new (diff old new) (diff-Leads old new h)
  diff-Leads (bold old) (bold new) h =
      wrap-Leads bold (λ p n. refl) old new (diff old new) (diff-Leads old new h)
  diff-Leads (italic old) (italic new) h =
      wrap-Leads italic (λ p n. refl) old new (diff old new) (diff-Leads old new h)
  diff-Leads (quoted old) (quoted new) h =
      wrap-Leads quoted (λ p n. refl) old new (diff old new) (diff-Leads old new h)
  diff-Leads old new h = replace_patch-Leads old new

  diff_children-LeadAll : (pre os ns : Nodes) → AllFit os → LeadAll pre os ns
  diff_children-LeadAll pre (cons o os) (cons n ns) h =
      step-LeadAll pre o n os ns (diff-Leads o n h.0)
        (diff_children-LeadAll (pre ++ cons n nil) os ns h.1)
  diff_children-LeadAll pre nil (cons n ns) h = end-LeadAll pre nil (cons n ns) (inl refl)
  diff_children-LeadAll pre (cons o os) nil h = end-LeadAll pre (cons o os) nil (inr refl)
  diff_children-LeadAll pre nil nil h = end-LeadAll pre nil nil (inl refl)

-- The patch that `diff` makes, applied to the old body, succeeds and gives the new one, where each
-- text of the old body is below 2 ^ 16 characters.
pub patch-diff :
    (old new : Node) (p : Patch) → Fits old → diff old new ≡ some p → patch p old ≡ (new, none)
patch-diff old new p h e = subst (Leads old new) e (diff-Leads old new h)

mutual
  unfolding diff

  diff_self : (n : Node) → diff n n ≡ none
  diff_self empty = refl
  diff_self newline = refl
  diff_self (children ns) =
      ap (λ (d : ChildDiff). children_patch d.patch d.truncate d.append) (diff_children_self ns 0)
  diff_self (Node.text s) = if_pos (Text-discrete s s) refl _ _
  diff_self (url s) = if_pos (Text-discrete s s) refl _ _
  diff_self (code s) = if_pos (Text-discrete s s) refl _ _
  diff_self (spoiler n) = ap wrap (diff_self n)
  diff_self (bold n) = ap wrap (diff_self n)
  diff_self (italic n) = ap wrap (diff_self n)
  diff_self (quoted n) = ap wrap (diff_self n)
  diff_self n = if_pos (Node-discrete n n) refl _ _

  diff_children_self :
      (ns : Nodes) (i : ℕ)
      → diff_children ns ns i ≡ record { patch = nil; truncate = none; append = nil }
  diff_children_self nil i = refl
  diff_children_self (cons n ns) i =
      ap (λ x. push_patch i x (diff_children ns ns (suc i))) (diff_self n)
      ∙ diff_children_self ns (suc i)

-- There is nothing to patch exactly when the two bodies are equal, where each text of the old body
-- is below 2 ^ 16 characters.
pub diff-none : (old new : Node) → Fits old → (diff old new ≡ none) ↔ (old ≡ new)
diff-none old new h = (
  (λ e. subst (Leads old new) e (diff-Leads old new h)),
  λ e. subst (λ k. diff old k ≡ none) e (diff_self old),
)
