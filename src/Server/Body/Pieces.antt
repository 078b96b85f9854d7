-- ===== src/Server/Body/Pieces.antt =====
-- A split text, put together again (`split` in server/src/body/fragment.rs).
use shamichan.Prelude.{
  ℕ, ◌≡◌, refl, ap, ◌∙◌, List, [], ◌∷◌, ◌++◌, map, Bool, true, false, ◌==◌, ◌&&◌, if◌then◌else◌,
  arith, Bool-cases, inl, inr,
}
use shamichan.PostBody.Append.Content.{Item}
use shamichan.Server.Body.{split, onto_first}

abbrev pub chars : List ℕ → List Item
chars s = map Item.char s

-- Pieces with an item before each of them
abbrev pub glued_rest : Item → List (List ℕ) → List Item
glued_rest g [] = []
glued_rest g (w ∷ ws) = g ∷ chars w ++ glued_rest g ws

-- Pieces with an item between them
abbrev pub glued : Item → List (List ℕ) → List Item
glued g [] = []
glued g (w ∷ ws) = chars w ++ glued_rest g ws

abbrev pub glue : Item → ℕ → ℕ → Item
glue g sep c = if c == sep then g else Item.char c

glued-onto_first :
    (g : Item) (c : ℕ) (ps : List (List ℕ)) → glued g (onto_first c ps) ≡ Item.char c ∷ glued g ps
glued-onto_first g c [] = refl
glued-onto_first g c (p ∷ ps) = refl

glued_rest-onto_first :
    (g : Item) (c : ℕ) (ps : List (List ℕ))
    → glued_rest g (onto_first c ps) ≡ g ∷ glued g (onto_first c ps)
glued_rest-onto_first g c [] = refl
glued_rest-onto_first g c (p ∷ ps) = refl

rest_if :
    (g : Item) (b : Bool) (c : ℕ) (ps : List (List ℕ))
    → glued_rest g (if b then [] ∷ ps else onto_first c ps)
      ≡ g ∷ glued g (if b then [] ∷ ps else onto_first c ps)
rest_if g true c ps = refl
rest_if g false c ps = glued_rest-onto_first g c ps

glued_rest-split :
    (g : Item) (sep : ℕ) (s : List ℕ) → glued_rest g (split sep s) ≡ g ∷ glued g (split sep s)
glued_rest-split g sep [] = refl
glued_rest-split g sep (c ∷ cs) = rest_if g (c == sep) c (split sep cs)

-- The pieces of a text, with an item between them, are the text with the item for the separator.
pub glued-split : (g : Item) (sep : ℕ) (s : List ℕ) → glued g (split sep s) ≡ map (glue g sep) s
glued-split g sep [] = refl
glued-split g sep (c ∷ cs) = elim (Bool-cases (c == sep)) [
  | inl e ↦ rw e (glued_rest-split g sep cs ∙ ap (λ l. g ∷ l) (glued-split g sep cs))
  | inr e ↦
      rw e (glued-onto_first g c (split sep cs) ∙ ap (λ l. Item.char c ∷ l) (glued-split g sep cs))
]

-- What every character of each piece satisfies.
module _ (p : ℕ → Bool) where
  abbrev pub all : List ℕ → Bool
  all [] = true
  all (c ∷ cs) = p c && all cs

  abbrev pub all_pieces : List (List ℕ) → Bool
  all_pieces [] = true
  all_pieces (w ∷ ws) = all w && all_pieces ws

  all_pieces-onto_first :
      (c : ℕ) (ps : List (List ℕ))
      → p c ≡ true
      → all_pieces ps ≡ true
      → all_pieces (onto_first c ps) ≡ true
  all_pieces-onto_first c [] h k = ground arith
  all_pieces-onto_first c (w ∷ ws) h k = ground arith

  pub all_pieces-split : (sep : ℕ) (s : List ℕ) → all s ≡ true → all_pieces (split sep s) ≡ true
  all_pieces-split sep [] h = refl
  all_pieces-split sep (c ∷ cs) h =
      let k : all_pieces (split sep cs) ≡ true = all_pieces-split sep cs (ground arith) in
      elim (Bool-cases (c == sep)) [
        | inl e ↦ rw e k
        | inr e ↦ rw e (all_pieces-onto_first c (split sep cs) (ground arith) k)
      ]
