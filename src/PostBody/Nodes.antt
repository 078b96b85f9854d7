-- ===== src/PostBody/Nodes.antt =====
-- The operations of `Vec<Node>` that the program uses.
use shamichan.Prelude.{ℕ, zero, suc, Option, none, some, ◌≡◌, refl, ap}
use shamichan.PostBody.Node.{Node, Nodes, nil, cons}

abbrev pub length : Nodes → ℕ
length nil = 0
length (cons n ns) = suc (length ns)

infixr 65 ◌++◌
abbrev pub ◌++◌ : Nodes → Nodes → Nodes
nil ++ ys = ys
cons n ns ++ ys = cons n (ns ++ ys)

abbrev pub get? : Nodes → ℕ → Option Node
get? nil i = none
get? (cons n ns) zero = some n
get? (cons n ns) (suc i) = get? ns i

abbrev pub set : Nodes → ℕ → Node → Nodes
set nil i v = nil
set (cons n ns) zero v = cons v ns
set (cons n ns) (suc i) v = cons n (set ns i v)

abbrev pub truncate : ℕ → Nodes → Nodes
truncate zero ns = nil
truncate (suc k) nil = nil
truncate (suc k) (cons n ns) = cons n (truncate k ns)

pub snoc_append :
    (pre : Nodes) (n : Node) (ns : Nodes) → (pre ++ cons n nil) ++ ns ≡ pre ++ cons n ns
snoc_append nil n ns = refl
snoc_append (cons p pre) n ns = ap (cons p) (snoc_append pre n ns)

pub append_nil : (ns : Nodes) → ns ++ nil ≡ ns
append_nil nil = refl
append_nil (cons n ns) = ap (cons n) (append_nil ns)

pub get?-length :
    (pre : Nodes) (n : Node) (ns : Nodes) → get? (pre ++ cons n ns) (length pre) ≡ some n
get?-length nil n ns = refl
get?-length (cons p pre) n ns = get?-length pre n ns

pub set-length :
    (pre : Nodes) (n m : Node) (ns : Nodes)
    → set (pre ++ cons n ns) (length pre) m ≡ pre ++ cons m ns
set-length nil n m ns = refl
set-length (cons p pre) n m ns = ap (cons p) (set-length pre n m ns)

pub truncate_length : (pre ns : Nodes) → truncate (length pre) (pre ++ ns) ≡ pre
truncate_length nil ns = refl
truncate_length (cons p pre) ns = ap (cons p) (truncate_length pre ns)

pub length_snoc : (pre : Nodes) (n : Node) → length (pre ++ cons n nil) ≡ suc (length pre)
length_snoc nil n = refl
length_snoc (cons p pre) n = ap suc (length_snoc pre n)
