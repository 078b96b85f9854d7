-- ===== src/Server/Body/Links/Detected.antt =====
-- The quotation level of a line and the links in it agree (server/src/body/links.rs).
use shamichan.Prelude.{
  ℕ, zero, suc, ◌^◌, ◌-◌, ◌≡◌, refl, ap, sym, ◌∙◌, ap₂, subst, ◌⊎◌, List, [], ◌∷◌, ◌++◌, append-nil,
  append_assoc, Option, none, some, Bool, true, false, if◌then◌else◌, inl, inr,
}
use shamichan.PostBody.Node.{Node, PendingNode}
use shamichan.PostBody.Append.{add_assign}
use shamichan.PostBody.Append.Content.{Item, content, add_assign-content}
use shamichan.Decimal.{parse_up_to}
use shamichan.Server.Locations.{PostLocation}
use shamichan.Server.Body.{Env}
use shamichan.Server.Body.Pieces.{chars}
use shamichan.Server.Body.Links.Reads.{
  signs, Reads, reads_post, reads_reference, ReadsAny, Reads-parse_links_inner,
}
use shamichan.Server.Body.Links.{
  Link, post_link, parse_links_inner, parse_link, detect_link, link_node, level, written, repeat,
  extra_gt, with_extra, is_some,
}

-- What is written for a post at a location.
abbrev pub IsPost : ℕ → PostLocation → Node → Type 0
IsPost id PostLocation.does_not_exist n = ⊥
IsPost id (PostLocation.exists thread page) n = n ≡ Node.post_link id thread page
IsPost id PostLocation.not_fetched n = n ≡ Node.pending (PendingNode.post_link id)

-- A word of two signs, those that are extra and the number of a post.
abbrev pub OfPost : Env → List ℕ → ℕ → Node → Type 0
OfPost env word extra n =
    (digits : List ℕ) × (id : ℕ) × (word ≡ signs (suc (suc extra)) ++ digits)
    × (parse_up_to (2 ^ 64 - 1) digits ≡ some id)
    × IsPost id (env.location id) n

-- A word of three signs, those that are extra and a configured label between slashes.
abbrev pub OfLabel : Env → List ℕ → ℕ → Node → Type 0
OfLabel env word extra n =
    (label : List ℕ) × (url : List ℕ) × (word
      ≡ signs (suc (suc (suc extra))) ++ 47 ∷ (label ++ 47 ∷ []))
    × (env.link label ≡ some url)
    × (n ≡ Node.reference label url)

-- What is written for a word, by the level that is detected for it.
abbrev pub Agrees : Env → List ℕ → Node → Option ℕ → Node × Bool → Type 0
Agrees env word dst none r = r ≡ (dst, false)
Agrees env word dst (some extra) (d, done) =
    (n : Node) × (OfPost env word extra n ⊎ OfLabel env word extra n)
    × (done ≡ true)
    × (content d ≡ content dst ++ (chars (signs extra) ++ Item.leaf n ∷ []))

repeat_lem : (k : ℕ) → repeat k ≡ signs k
repeat_lem zero = refl
repeat_lem (suc k) = ap (λ l. 62 ∷ l) (repeat_lem k)

content-with_extra :
    (dst : Node) (k : ℕ) → content (with_extra dst k) ≡ content dst ++ chars (signs k)
content-with_extra dst zero = sym (append-nil (content dst))
content-with_extra dst (suc k) =
    (add_assign-content dst dst (repeat (suc k))).1
    ∙ ap (λ l. content dst ++ chars l) (repeat_lem (suc k))

-- A node of one item that is written after signs.
content-written :
    (dst n : Node) (k : ℕ)
    → content n ≡ Item.leaf n ∷ []
    → content (add_assign (with_extra dst k) n)
      ≡ content dst ++ (chars (signs k) ++ Item.leaf n ∷ [])
content-written dst n k e =
    (add_assign-content (with_extra dst k) n []).0
    ∙ ap₂ ◌++◌ (content-with_extra dst k) e
    ∙ append_assoc (content dst) (chars (signs k)) (Item.leaf n ∷ [])

Agrees-post :
    (env : Env) (word : List ℕ) (dst : Node) (digits : List ℕ) (id extra : ℕ) (loc : PostLocation)
    → word ≡ signs (suc (suc extra)) ++ digits
    → parse_up_to (2 ^ 64 - 1) digits ≡ some id
    → env.location id ≡ loc
    → Agrees env word dst
        (level env (post_link id loc extra))
        (written dst extra (link_node env (post_link id loc extra)))
Agrees-post env word dst digits id extra PostLocation.does_not_exist w e f = refl
Agrees-post env word dst digits id extra (PostLocation.exists thread page) w e f =
    let n = Node.post_link id thread page in
    (
      n,
      inl (digits, id, w, e, subst (λ l. IsPost id l n) (sym f) refl),
      refl,
      content-written dst n extra refl,
    )
Agrees-post env word dst digits id extra PostLocation.not_fetched w e f =
    let n = Node.pending (PendingNode.post_link id) in
    (
      n,
      inl (digits, id, w, e, subst (λ l. IsPost id l n) (sym f) refl),
      refl,
      content-written dst n extra refl,
    )

Agrees-reference :
    (env : Env) (word : List ℕ) (dst : Node) (label : List ℕ) (extra : ℕ) (o : Option (List ℕ))
    → word ≡ signs (suc (suc (suc extra))) ++ 47 ∷ (label ++ 47 ∷ [])
    → env.link label ≡ o
    → Agrees env word dst (if is_some o then some extra else none) (
        written dst extra (elim o as (λ x. Option Node) [
          | none ↦ none
          | some url ↦ some (Node.reference label url)
        ]))
Agrees-reference env word dst label extra none w e = refl
Agrees-reference env word dst label extra (some url) w e =
    let n = Node.reference label url in
    (n, inr (label, url, w, e, refl), refl, content-written dst n extra refl)

Agrees-link :
    (env : Env) (word : List ℕ) (dst : Node) (l : Link)
    → Reads env word l
    → Agrees env word dst (level env l) (written dst (extra_gt l) (link_node env l))
Agrees-link env word dst _ (reads_post digits id extra w e) =
    Agrees-post env word dst digits id extra (env.location id) w e refl
Agrees-link env word dst _ (reads_reference label extra w) =
    Agrees-reference env word dst label extra (env.link label) w refl

-- Where a level is detected for a word, a link is written for it: the word is the two signs of a
-- link, as many signs as the level says and the number of a post, or, with one sign more, a
-- configured label between slashes; what is written is as many signs as the level says and then one
-- node, which is the link to that post at its known location, the pending link where the location is
-- not known, or the reference of the label with its configured URL. Where no level is detected,
-- nothing is written.
pub parse_link-detect_link :
    (env : Env) (dst : Node) (word : List ℕ)
    → Agrees env word dst (detect_link env word) (parse_link env dst word)
unfolding parse_link detect_link
parse_link-detect_link env dst word =
    go (parse_links_inner env word) (Reads-parse_links_inner env word)
  where
    go :
        (o : Option Link)
        → ReadsAny env word o
        → Agrees env word dst
            (elim o as (λ x. Option ℕ) [ none ↦ none | some l ↦ level env l ])
            (elim o as (λ x. Node × Bool) [
              | none ↦ (dst, false)
              | some l ↦ written dst (extra_gt l) (link_node env l)
            ])
    go none r = refl
    go (some l) r = Agrees-link env word dst l r
