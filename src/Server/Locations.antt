-- ===== src/Server/Locations.antt =====
-- The cache of post locations (server/src/body/links.rs). The `Arc` of an entry is the number of a
-- cell, which a task can hold while the entry is replaced.
pub mod Fresh
use shamichan.Prelude.{ℕ, suc, List, [], ◌∷◌, Option, none, some}
use shamichan.Prelude.Eq.{ℕ_eq}
use shamichan.Collections.HashMap
use shamichan.Collections.HashMap.{HashMap}

pub data PostLocation : Type 0 where
  not_fetched does_not_exist : PostLocation
  -- thread, page
  exists : ℕ → ℕ → PostLocation

-- `next` is the number of the next cell.
pub record PostLocationCache : Type 0 where
  pub entries : HashMap ℕ ℕ
  pub cells : HashMap ℕ PostLocation
  pub next : ℕ

pub record KnownPostLocation : Type 0 where
  pub id : ℕ
  pub thread : ℕ
  pub page : ℕ

abbrev pub or_default : Option PostLocation → PostLocation
or_default none = PostLocation.not_fetched
or_default (some l) = l

-- What a cell holds.
unfoldable pub read : PostLocationCache → ℕ → PostLocation
read c cell = or_default (HashMap.get c.cells cell)

abbrev pub entry_at : PostLocationCache → ℕ → Option ℕ → PostLocationCache × ℕ
entry_at c id (some cell) = (c, cell)
entry_at c id none = (
  record {
    entries = HashMap.insert c.entries id c.next;
    cells = HashMap.insert c.cells c.next PostLocation.not_fetched;
    next = suc c.next;
  },
  c.next,
)

-- `c.entry(id).or_default().clone()`
unfoldable pub entry : PostLocationCache → ℕ → PostLocationCache × ℕ
entry c id = entry_at c id (HashMap.get c.entries id)

-- The answer of `post_location`: an error, or where the post is.
pub data Answer : Type 0 where
  failed : Answer
  located : Option (ℕ × ℕ) → Answer

-- The first part of `post_location`, up to the lock for writing: an answer, or the cell that is held.
pub data Begun : Type 0 where
  answered : Answer → Begun
  holds : ℕ → Begun

abbrev pub read_as : ℕ → PostLocation → Begun
read_as cell (PostLocation.exists thread page) =
    Begun.answered (Answer.located (some (thread, page)))
read_as cell PostLocation.does_not_exist = Begun.answered (Answer.located none)
read_as cell PostLocation.not_fetched = Begun.holds cell

unfoldable pub begin : PostLocationCache → ℕ → PostLocationCache × Begun
unfolding entry read
begin c id = let (c', cell) = entry c id in (c', read_as cell (read c' cell))

abbrev pub write : PostLocationCache → ℕ → PostLocation → PostLocationCache
write c cell l = record c { cells = HashMap.insert c.cells cell l }

-- What `db::get_post_parenthood` gives is stored, unless it fails.
abbrev pub fetched : PostLocationCache → ℕ → Option (Option (ℕ × ℕ)) → PostLocationCache × Answer
fetched c cell none = (c, Answer.failed)
fetched c cell (some none) = (write c cell PostLocation.does_not_exist, Answer.located none)
fetched c cell (some (some (thread, page))) =
    (write c cell (PostLocation.exists thread page), Answer.located (some (thread, page)))

abbrev pub resolve_in :
    PostLocationCache → ℕ → Option (Option (ℕ × ℕ)) → PostLocation → PostLocationCache × Answer
resolve_in c cell db (PostLocation.exists thread page) = (c, Answer.located (some (thread, page)))
resolve_in c cell db PostLocation.does_not_exist = (c, Answer.located none)
resolve_in c cell db PostLocation.not_fetched = fetched c cell db

-- The second part of `post_location`, under the lock for writing.
unfoldable pub resolve :
    PostLocationCache → ℕ → Option (Option (ℕ × ℕ)) → PostLocationCache × Answer
unfolding read
resolve c cell db = resolve_in c cell db (read c cell)

-- `cache_locations`
unfoldable pub cache_locations : PostLocationCache → List KnownPostLocation → PostLocationCache
cache_locations c [] = c
cache_locations c (l ∷ ls) =
    cache_locations
      (record {
        entries = HashMap.insert c.entries l.id c.next;
        cells = HashMap.insert c.cells c.next (PostLocation.exists l.thread l.page);
        next = suc c.next;
      })
      ls
