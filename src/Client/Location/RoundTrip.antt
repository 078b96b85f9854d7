-- ===== src/Client/Location/RoundTrip.antt =====
-- The path of a location leads back to it (client/src/state/location.rs).
use shamichan.Prelude.{
  ℕ, suc, ◌^◌, ◌<◌, ◌≡◌, refl, ap, ap₂, ◌∙◌, List, [], ◌∷◌, ◌++◌, Option, none, some, Bool, true,
  false, leb, ◌==◌, ◌&&◌, ◌||◌, not, arith,
}
use shamichan.PostBody.Node.{ℤ, pos, negsuc}
use shamichan.Decimal.{
  show, show_int, is_digit, are_digits, are_digits-digits, parse_u64-show, parse_i32-show_int,
  IsI32,
}
use shamichan.Client.Location.{
  FeedId, Focus, Location, path, from_path, feed_path, focus_hash, split, onto_first, feed_of,
  focus_of, thread_at, post_at, threads_name,
}

-- IDs of 64 bits and pages of 32.
abbrev pub IsFeed : FeedId → Type 0
IsFeed (FeedId.thread id page) = (id < 2 ^ 64) × IsI32 page
IsFeed f = Unit

abbrev pub IsFocus : Option Focus → Type 0
IsFocus (some (Focus.post id)) = id < 2 ^ 64
IsFocus f = Unit

abbrev pub is_path_char : ℕ → Bool
is_path_char c = is_digit c || (leb 97 c && leb c 122 || (c == 45 || c == 47))

abbrev pub are_path_chars : List ℕ → Bool
are_path_chars [] = true
are_path_chars (c ∷ cs) = is_path_char c && are_path_chars cs

-- An absolute path of plain characters, without a host.
abbrev pub is_pathname : List ℕ → Bool
is_pathname [] = false
is_pathname (c ∷ []) = c == 47
is_pathname (c ∷ d ∷ cs) = c == 47 && (not (d == 47) && are_path_chars (d ∷ cs))

-- Nothing, or a sign and at least one plain character.
abbrev pub is_hash : List ℕ → Bool
is_hash [] = true
is_hash (c ∷ []) = false
is_hash (c ∷ d ∷ cs) = c == 35 && are_path_chars (d ∷ cs)

are_path_chars-append :
    (cs ds : List ℕ)
    → are_path_chars cs ≡ true
    → are_path_chars ds ≡ true
    → are_path_chars (cs ++ ds) ≡ true
are_path_chars-append [] ds h k = k
are_path_chars-append (c ∷ cs) ds h k = ground (arith, are_path_chars-append cs ds)

are_path_chars-are_digits : (cs : List ℕ) → are_digits cs ≡ true → are_path_chars cs ≡ true
are_path_chars-are_digits [] h = refl
are_path_chars-are_digits (c ∷ cs) h = ground (arith, are_path_chars-are_digits cs)

path_chars-show : (n : ℕ) → are_path_chars (show n) ≡ true
path_chars-show n = are_path_chars-are_digits (show n) (are_digits-digits (suc n) n)

path_chars-show_int : (n : ℤ) → are_path_chars (show_int n) ≡ true
path_chars-show_int (pos n) = path_chars-show n
path_chars-show_int (negsuc n) = ground (arith, path_chars-show (suc n))

is_pathname-feed_path : (f : FeedId) → is_pathname (feed_path f) ≡ true
is_pathname-feed_path FeedId.index = refl
is_pathname-feed_path FeedId.catalog = refl
is_pathname-feed_path (FeedId.thread id page) =
    are_path_chars-append (show id) (47 ∷ show_int page) (path_chars-show id)
      (path_chars-show_int page)

is_hash-post : (cs : List ℕ) → are_path_chars cs ≡ true → is_hash (35 ∷ 112 ∷ 45 ∷ cs) ≡ true
is_hash-post cs h = h

is_hash-focus_hash : (f : Option Focus) → is_hash (focus_hash f) ≡ true
is_hash-focus_hash none = refl
is_hash-focus_hash (some Focus.top) = refl
is_hash-focus_hash (some Focus.bottom) = refl
is_hash-focus_hash (some (Focus.post id)) = is_hash-post (show id) (path_chars-show id)

-- A text that has no slash.
abbrev no_slash : List ℕ → Bool
no_slash [] = true
no_slash (c ∷ cs) = not (c == 47) && no_slash cs

no_slash-digits : (cs : List ℕ) → are_digits cs ≡ true → no_slash cs ≡ true
no_slash-digits [] h = refl
no_slash-digits (c ∷ cs) h = ground (arith, no_slash-digits cs)

no_slash-show_int : (n : ℤ) → no_slash (show_int n) ≡ true
no_slash-show_int (pos n) = no_slash-digits (show n) (are_digits-digits (suc n) n)
no_slash-show_int (negsuc n) =
    ground (arith, no_slash-digits (show (suc n)) (are_digits-digits (suc (suc n)) (suc n)))

split_last : (cs : List ℕ) → no_slash cs ≡ true → split cs ≡ cs ∷ []
split_last [] h = refl
split_last (c ∷ cs) h =
    let other : (c == 47) ≡ false = ground arith in
    rw other (ap (onto_first c) (split_last cs (ground arith)))

split_next : (cs ds : List ℕ) → no_slash cs ≡ true → split (cs ++ 47 ∷ ds) ≡ cs ∷ split ds
split_next [] ds h = refl
split_next (c ∷ cs) ds h =
    let other : (c == 47) ≡ false = ground arith in
    rw other (ap (onto_first c) (split_next cs ds (ground arith)))

split_thread :
    (id page : List ℕ)
    → no_slash id ≡ true
    → no_slash page ≡ true
    → split (47 ∷ threads_name ++ 47 ∷ id ++ 47 ∷ page) ≡ [] ∷ threads_name ∷ id ∷ page ∷ []
split_thread id page h k =
    ap (λ ps. [] ∷ threads_name ∷ ps)
      (split_next id page h ∙ ap (λ ps. id ∷ ps) (split_last page k))

feed_of-feed_path : (f : FeedId) → IsFeed f → feed_of (split (feed_path f)) ≡ f
feed_of-feed_path FeedId.index h = refl
feed_of-feed_path FeedId.catalog h = refl
feed_of-feed_path (FeedId.thread id page) (h, k) =
    ap feed_of (
      split_thread (show id) (show_int page)
        (no_slash-digits (show id) (are_digits-digits (suc id) id)) (no_slash-show_int page))
    ∙ ap₂ thread_at (parse_u64-show id h) (parse_i32-show_int page k)

focus_of-focus_hash : (f : Option Focus) → IsFocus f → focus_of (focus_hash f) ≡ f
focus_of-focus_hash none h = refl
focus_of-focus_hash (some Focus.top) h = refl
focus_of-focus_hash (some Focus.bottom) h = refl
focus_of-focus_hash (some (Focus.post id)) h = ap post_at (parse_u64-show id h)

-- Where the browser splits an address of plain characters into its path and its hash, a location,
-- its IDs below 2 ^ 64 and its page an integer of 32 bits, is read back from its path.
pub from_path-path :
    (browser : List ℕ → List ℕ × List ℕ)
    → ((p h : List ℕ) → is_pathname p ≡ true → is_hash h ≡ true → browser (p ++ h) ≡ (p, h))
    → (l : Location) → IsFeed l.feed
    → IsFocus l.focus
    → from_path (browser (path l)).0 (browser (path l)).1 ≡ l
unfolding path from_path
from_path-path browser splits l h k =
    let e =
      splits (feed_path l.feed) (focus_hash l.focus) (is_pathname-feed_path l.feed)
        (is_hash-focus_hash l.focus) in
    ap (λ r. from_path r.0 r.1) e
    ∙ ap₂ (λ f g. record { feed = f; focus = g }) (feed_of-feed_path l.feed h)
        (focus_of-focus_hash l.focus k)
