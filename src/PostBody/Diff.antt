-- ===== src/PostBody/Diff.antt =====
-- `Node::diff` and `Node::patch` of common/src/payloads/post_body.rs.
pub mod RoundTrip
use shamichan.Prelude.{ℕ, suc, ◌+◌, List, [], Option, none, some, if◌then◌else◌, ite}
use shamichan.PostBody.Text.{TextPatch}
use shamichan.PostBody.Text
use shamichan.PostBody.Node.{
  Node, Nodes, Patch, Patches, Node-discrete, Text-discrete, empty, newline, children, url, code,
  spoiler, bold, italic, quoted, replace, wrapped, nil, cons,
}
use shamichan.PostBody.Nodes
use shamichan.PostBody.Nodes.{◌++◌}

-- The three locals of the loop over two child lists.
pub record ChildDiff : Type 0 where
  pub patch : Patches
  pub truncate : Option ℕ
  pub append : Nodes

-- `if let Some(p) = o.diff(n) { patch.push((i, p)) }`
abbrev pub push_patch : ℕ → Option Patch → ChildDiff → ChildDiff
push_patch i none d = d
push_patch i (some p) d = record d { patch = cons i p d.patch }

-- The patch of a child list, none where the three locals are left as they began.
abbrev pub children_patch : Patches → Option ℕ → Nodes → Option Patch
children_patch nil none nil = none
children_patch nil none (cons n ns) = some (Patch.children nil none (cons n ns))
children_patch nil (some k) ns = some (Patch.children nil (some k) ns)
children_patch (cons i p ps) t ns = some (Patch.children (cons i p ps) t ns)

abbrev pub text_patch : List ℕ → List ℕ → Option Patch
text_patch old new = ite (Text-discrete old new) none (some (Patch.text (Text.new old new)))

abbrev pub wrap : Option Patch → Option Patch
wrap none = none
wrap (some p) = some (wrapped p)

abbrev pub replace_patch : Node → Node → Option Patch
replace_patch old new = ite (Node-discrete old new) none (some (replace new))

-- `diff_children` is the loop over the children, `i` its counter.
unfoldable mutual
  pub diff : Node → Node → Option Patch
  diff empty empty = none
  diff newline newline = none
  diff (children old) (children new) =
      let d = diff_children old new 0 in children_patch d.patch d.truncate d.append
  diff (Node.text old) (Node.text new) = text_patch old new
  diff (url old) (url new) = text_patch old new
  diff (code old) (code new) = text_patch old new
  diff (spoiler old) (spoiler new) = wrap (diff old new)
  diff (bold old) (bold new) = wrap (diff old new)
  diff (italic old) (italic new) = wrap (diff old new)
  diff (quoted old) (quoted new) = wrap (diff old new)
  diff old new = replace_patch old new

  pub diff_children : Nodes → Nodes → ℕ → ChildDiff
  diff_children (cons o os) (cons n ns) i = push_patch i (diff o n) (diff_children os ns (suc i))
  diff_children nil (cons n ns) i = record { patch = nil; truncate = none; append = cons n ns }
  diff_children (cons o os) nil i = record { patch = nil; truncate = some i; append = nil }
  diff_children nil nil i = record { patch = nil; truncate = none; append = nil }

pub data PatchError : Type 0 where
  -- the index and the length
  out_of_bounds : ℕ → ℕ → PatchError
  type_mismatch : Node → Patch → PatchError

-- The node after the call, and the error, if any. What was patched before an error stays patched.
abbrev pub Patched : Type 0 → Type 0
Patched A = A × Option PatchError

abbrev pub rewrap : {A B : Type 0} → (A → B) → Patched A → Patched B
rewrap f (a, e) = (f a, e)

abbrev pub apply_text : TextPatch → List ℕ → List ℕ
apply_text p old = Text.apply p [] old

abbrev pub truncate_to : Option ℕ → Nodes → Nodes
truncate_to none ns = ns
truncate_to (some k) ns = Nodes.truncate k ns

abbrev pub finish : Option ℕ → Nodes → Patched Nodes → Patched Nodes
finish t app (ns, none) = (truncate_to t ns ++ app, none)
finish t app (ns, some e) = (ns, some e)

-- One round of the loop over the patches: `get_mut`, then `patch` in place, then the other rounds.
abbrev pub patch_at :
    ℕ → Nodes → Option Node → (Node → Patched Node) → (Nodes → Patched Nodes) → Patched Nodes
patch_at i dst none p rest = (dst, some (out_of_bounds i (Nodes.length dst)))
patch_at i dst (some n) p rest =
    let (n', e) = p n in
    let rest' = rest (Nodes.set dst i n') in
    let stop : Patched Nodes = (Nodes.set dst i n', e) in elim e [ none ↦ rest' | some _ ↦ stop ]

unfoldable mutual
  pub patch : Patch → Node → Patched Node
  patch (replace p) dst = (p, none)
  patch (Patch.children ps t app) (children dst) =
      rewrap children (finish t app (patch_children ps dst))
  patch (Patch.text p) (Node.text dst) = (Node.text (apply_text p dst), none)
  patch (Patch.text p) (url dst) = (url (apply_text p dst), none)
  patch (Patch.text p) (code dst) = (code (apply_text p dst), none)
  patch (wrapped p) (spoiler old) = rewrap spoiler (patch p old)
  patch (wrapped p) (bold old) = rewrap bold (patch p old)
  patch (wrapped p) (italic old) = rewrap italic (patch p old)
  patch (wrapped p) (quoted old) = rewrap quoted (patch p old)
  patch p dst = (dst, some (type_mismatch dst p))

  pub patch_children : Patches → Nodes → Patched Nodes
  patch_children nil dst = (dst, none)
  patch_children (cons i p ps) dst = patch_at i dst (Nodes.get? dst i) (patch p) (patch_children ps)
