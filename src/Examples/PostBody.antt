-- ===== src/Examples/PostBody.antt =====
-- An edit of a post body and the patch that it makes.
use shamichan.Prelude.{◌≡◌, ◌++◌, refl, map, [], ◌∷◌, none, some, ◌↔◌, arith}
use shamichan.PostBody.Text
use shamichan.PostBody.Text.RoundTrip.{apply-new}
use shamichan.PostBody.Node.{Node, Nodes, Patch, Patches}
use shamichan.PostBody.Append.{add_assign, add_string}
use shamichan.PostBody.Append.Content.{Item, content, add_assign-content}
use shamichan.PostBody.Diff.{diff, patch}
use shamichan.PostBody.Diff.RoundTrip.{patch-diff, diff-none}

abbrev old_body : Node
old_body = Node.bold (Node.children (Nodes.cons Node.newline (Nodes.cons Node.newline Nodes.nil)))

abbrev new_body : Node
new_body = Node.bold (Node.children (Nodes.cons Node.newline Nodes.nil))

abbrev edit : Patch
edit = Patch.wrapped (Patch.children Patches.nil (some 1) Nodes.nil)

diff_edit : diff old_body new_body ≡ some edit
unfolding diff
diff_edit = refl

patch-diff_example : patch edit old_body ≡ (new_body, none)
patch-diff_example = patch-diff old_body new_body edit (tt, (tt, tt)) diff_edit

diff-none_example : (diff old_body new_body ≡ none) ↔ (old_body ≡ new_body)
diff-none_example = diff-none old_body new_body (tt, (tt, tt))

-- "post" is edited to "poets".
apply-new_example :
    Text.apply
      (Text.new (112 ∷ 111 ∷ 115 ∷ 116 ∷ []) (112 ∷ 111 ∷ 101 ∷ 116 ∷ 115 ∷ []))
      []
      (112 ∷ 111 ∷ 115 ∷ 116 ∷ [])
    ≡ 112 ∷ 111 ∷ 101 ∷ 116 ∷ 115 ∷ []
apply-new_example =
    apply-new [] (112 ∷ 111 ∷ 115 ∷ 116 ∷ []) (112 ∷ 111 ∷ 101 ∷ 116 ∷ 115 ∷ []) (omega arith)

-- A text is appended to children that end in a text.
add_assign-content_example :
    (content (
        add_assign
          (Node.children (Nodes.cons (Node.text (97 ∷ [])) Nodes.nil))
          (Node.text (98 ∷ [])))
      ≡ content (Node.children (Nodes.cons (Node.text (97 ∷ [])) Nodes.nil))
        ++ content (Node.text (98 ∷ [])))
    × (content (add_string (Node.children (Nodes.cons (Node.text (97 ∷ [])) Nodes.nil)) (99 ∷ []))
        ≡ content (Node.children (Nodes.cons (Node.text (97 ∷ [])) Nodes.nil))
          ++ map Item.char (99 ∷ []))
add_assign-content_example =
    add_assign-content (Node.children (Nodes.cons (Node.text (97 ∷ [])) Nodes.nil))
      (Node.text (98 ∷ [])) (99 ∷ [])
