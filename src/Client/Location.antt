-- ===== src/Client/Location.antt =====
-- The locations of the app and their paths (client/src/state/location.rs).
pub mod RoundTrip
use shamichan.Prelude.{
  ℕ, List, [], ◌∷◌, ◌++◌, Option, none, some, Bool, true, false, if◌then◌else◌, ◌==◌, ◌&&◌,
}
use shamichan.PostBody.Node.{ℤ}
use shamichan.Decimal.{show, show_int, parse_u64, parse_i32}

pub data FeedId : Type 0 where
  index catalog : FeedId
  -- the thread's ID and the page navigated to
  thread : ℕ → ℤ → FeedId

-- `FeedID::as_u64`
unfoldable pub as_u64 : FeedId → ℕ
as_u64 FeedId.index = 0
as_u64 FeedId.catalog = 0
as_u64 (FeedId.thread id page) = id

pub data Focus : Type 0 where
  top bottom : Focus
  post : ℕ → Focus

pub record Location : Type 0 where
  pub feed : FeedId
  pub focus : Option Focus

-- `Location::is_thread`
unfoldable pub is_thread : Location → Bool
is_thread l = elim l.feed [ thread id page ↦ true | _ ↦ false ]

abbrev pub text_eq : List ℕ → List ℕ → Bool
text_eq [] [] = true
text_eq [] (d ∷ ds) = false
text_eq (c ∷ cs) [] = false
text_eq (c ∷ cs) (d ∷ ds) = c == d && text_eq cs ds

abbrev pub threads_name : List ℕ
threads_name = 116 ∷ 104 ∷ 114 ∷ 101 ∷ 97 ∷ 100 ∷ 115 ∷ []

abbrev pub catalog_name : List ℕ
catalog_name = 99 ∷ 97 ∷ 116 ∷ 97 ∷ 108 ∷ 111 ∷ 103 ∷ []

abbrev pub top_hash : List ℕ
top_hash = 35 ∷ 116 ∷ 111 ∷ 112 ∷ []

abbrev pub bottom_hash : List ℕ
bottom_hash = 35 ∷ 98 ∷ 111 ∷ 116 ∷ 116 ∷ 111 ∷ 109 ∷ []

-- The text of the feed in a path.
abbrev pub feed_path : FeedId → List ℕ
feed_path FeedId.index = 47 ∷ []
feed_path FeedId.catalog = 47 ∷ catalog_name
feed_path (FeedId.thread id page) = 47 ∷ threads_name ++ 47 ∷ show id ++ 47 ∷ show_int page

abbrev pub focus_hash : Option Focus → List ℕ
focus_hash none = []
focus_hash (some Focus.top) = top_hash
focus_hash (some Focus.bottom) = bottom_hash
focus_hash (some (Focus.post id)) = 35 ∷ 112 ∷ 45 ∷ show id

-- `Location::path`
unfoldable pub path : Location → List ℕ
path l = feed_path l.feed ++ focus_hash l.focus

-- A text before the first piece of a split text.
abbrev pub onto_first : ℕ → List (List ℕ) → List (List ℕ)
onto_first c [] = (c ∷ []) ∷ []
onto_first c (p ∷ ps) = (c ∷ p) ∷ ps

-- `split('/').collect()`
abbrev pub split : List ℕ → List (List ℕ)
split [] = [] ∷ []
split (c ∷ cs) = let rest = split cs in if c == 47 then [] ∷ rest else onto_first c rest

abbrev pub thread_at : Option ℕ → Option ℤ → FeedId
thread_at (some id) (some page) = FeedId.thread id page
thread_at (some id) none = FeedId.index
thread_at none page = FeedId.index

-- The feed that the pieces of a path name.
abbrev pub feed_of : List (List ℕ) → FeedId
feed_of [] = FeedId.index
feed_of (a ∷ []) = FeedId.index
feed_of (a ∷ b ∷ c ∷ d ∷ []) =
    if text_eq b threads_name
    then thread_at (parse_u64 c) (parse_i32 d)
    else if text_eq b catalog_name
    then FeedId.catalog
    else FeedId.index
feed_of (a ∷ b ∷ cs) = if text_eq b catalog_name then FeedId.catalog else FeedId.index

abbrev pub post_at : Option ℕ → Option Focus
post_at none = none
post_at (some id) = some (Focus.post id)

-- `"#p-"` and what follows it
abbrev pub post_hash : List ℕ → Option Focus
post_hash (a ∷ b ∷ c ∷ rest) =
    let id = post_at (parse_u64 rest) in if a == 35 && (b == 112 && c == 45) then id else none
post_hash cs = none

abbrev pub focus_of : List ℕ → Option Focus
focus_of h =
    if text_eq h top_hash
    then some Focus.top
    else if text_eq h bottom_hash
    then some Focus.bottom
    else post_hash h

-- `Location::from_path` of the `pathname` and the `hash` of the window's location.
unfoldable pub from_path : List ℕ → List ℕ → Location
unfolding parse_u64 parse_i32
from_path pathname hash = record { feed = feed_of (split pathname); focus = focus_of hash }
