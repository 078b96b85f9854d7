-- ===== src/PostBody/Append.antt =====
-- `Node += Node` and `Node += T` of common/src/payloads/post_body.rs.
pub mod Content
use shamichan.Prelude.{ℕ, List, Option, none, some}
use shamichan.Prelude.{◌++◌ as append}
use shamichan.PostBody.Node.{Node, Nodes, nil, cons}
use shamichan.PostBody.Nodes.{◌++◌}

-- What the matches of the two operations tell apart.
pub data View : Type 0 where
  is_empty is_other : View
  is_text : List ℕ → View
  is_children : Nodes → View

abbrev pub view : Node → View
view Node.empty = is_empty
view (Node.text s) = is_text s
view (Node.children ns) = is_children ns
view _ = is_other

abbrev pub as_text : View → Option (List ℕ)
as_text (is_text s) = some s
as_text _ = none

-- `v.last_mut()`, where it is a text
abbrev pub last_text : Nodes → Option (List ℕ)
last_text nil = none
last_text (cons n nil) = as_text (view n)
last_text (cons n (cons m ns)) = last_text (cons m ns)

abbrev pub set_last : Nodes → Node → Nodes
set_last nil n = nil
set_last (cons m nil) n = cons n nil
set_last (cons m (cons k ns)) n = cons m (set_last (cons k ns) n)

-- `Some(Text(dst)) => *dst += &s`, or else `v.push(Text(s))`
abbrev pub add_text : Nodes → List ℕ → Option (List ℕ) → Nodes
add_text v s (some t) = set_last v (Node.text (append t s))
add_text v s none = v ++ cons (Node.text s) nil

unfoldable pub push_text : Nodes → List ℕ → Nodes
push_text v s = add_text v s (last_text v)

abbrev pub push_first : Nodes → Node → View → Nodes
push_first v n (is_text s) = push_text v s
push_first v n _ = v ++ cons n nil

-- The arm of two lists of children: their adjacent texts are merged.
unfoldable pub extend : Nodes → Nodes → Nodes
extend v nil = v
extend v (cons n ns) = push_first v n (view n) ++ ns

abbrev pub add : View → View → Node → Node → Node
add _ is_empty dst n = dst
add is_empty _ dst n = n
add (is_text s) (is_text t) dst n = Node.text (append s t)
add (is_children v) (is_children ns) dst n = Node.children (extend v ns)
add (is_children v) (is_text s) dst n = Node.children (push_text v s)
add (is_children v) _ dst n = Node.children (v ++ cons n nil)
add _ _ dst n = Node.children (cons dst (cons n nil))

-- `AddAssign<Node>::add_assign`
unfoldable pub add_assign : Node → Node → Node
add_assign dst rhs = add (view dst) (view rhs) dst rhs

abbrev pub add_plain : View → Node → List ℕ → Node
add_plain (is_text t) dst s = Node.text (append t s)
add_plain (is_children v) dst s = Node.children (push_text v s)
add_plain _ dst s = add_assign dst (Node.text s)

-- `AddAssign<T>::add_assign`, for the characters of `T`
unfoldable pub add_string : Node → List ℕ → Node
add_string dst s = add_plain (view dst) dst s
