-- ===== src/Feeds/Thread/Keeps.antt =====
-- What the parts of the handlers of `ThreadFeed` leave as it is (server/src/feeds/thread/mod.rs).
use shamichan.Prelude.{
  ℕ, ◌≡◌, refl, ap, ◌∙◌, List, [], ◌∷◌, ◌++◌, Option, none, some, Bool, true, false, if◌then◌else◌,
  arith,
}
use shamichan.Prelude.Eq.{eq, ℕ_eq}
use shamichan.Collections.HashMap
use shamichan.Collections.HashMap.{HashMap, get-insert}
use shamichan.PostBody.Node.{Node}
use shamichan.Server.MessageCacher.{MessageCacher}
use shamichan.Payloads.{Post, Thread}
use shamichan.Feeds.Changes.{Sent}
use shamichan.Feeds.Bundle.{Message, Bundle}
use shamichan.Feeds.Thread.{
  Env, PageRecord, unfetched, mutable, immutable, Error, Pages, Bodies, ThreadFeed, fetch_page,
}
use shamichan.Feeds.Thread.Handlers.{InsertPost, insert_in, insert_fetched}
use shamichan.Feeds.Thread.Edits.{
  close_in, close_fetched, close_found, try_pages, try_page, and_pages,
}
use shamichan.Feeds.Thread.Pulse.{
  process_all, process_in, process_unfetched, send_pages, send_page, to_waiting, Mutation,
}

abbrev pub is_some : {A : Type 0} → Option A → Bool
is_some none = false
is_some (some x) = true

-- Whether a page is in the map.
abbrev pub has : Pages → ℕ → Bool
has pages k = is_some (HashMap.get pages k)

-- Every page of the one is in the other.
abbrev pub Includes : Pages → Pages → Type 0
Includes new old = (k : ℕ) → has old k ≡ true → has new k ≡ true

-- No pulse is taken back, no page is lost, and their number stays.
pub record Keeps (old new : ThreadFeed) : Type 0 where
  pub pulse : new.pending_pulse ≡ old.pending_pulse
  pub pages : Includes new.pages old.pages
  pub count : new.thread_meta.val.page_count ≡ old.thread_meta.val.page_count

pub has-insert : (m : Pages) (k : ℕ) (rec : PageRecord) → has (HashMap.insert m k rec) k ≡ true
has-insert m k rec = ground (arith, get-insert m k k rec, ℕ_eq.eq_iff k k)

some_if :
    {A : Type 0} (b : Bool) (x : A) (o : Option A)
    → is_some o ≡ true
    → is_some (if b then some x else o) ≡ true
some_if true x o h = refl
some_if false x o h = h

pub insert-Includes : (m : Pages) (k : ℕ) (rec : PageRecord) → Includes (HashMap.insert m k rec) m
insert-Includes m k rec j h =
    ap is_some (get-insert m k j rec) ∙ some_if (eq k j) rec (HashMap.get m j) h

pub self-Keeps : (f : ThreadFeed) → Keeps f f
self-Keeps f = record { pulse = refl; pages = λ k h. h; count = refl }

-- A page is replaced and nothing else changes that is kept.
pub insert-Keeps :
    (f g : ThreadFeed) (k : ℕ) (rec : PageRecord)
    → g.pending_pulse ≡ f.pending_pulse
    → g.thread_meta ≡ f.thread_meta
    → g.pages ≡ HashMap.insert f.pages k rec
    → Keeps f g
insert-Keeps f g k rec a b c = record {
  pulse = a;
  pages = λ j h. ap (λ m. has m j) c ∙ insert-Includes f.pages k rec j h;
  count = ap (λ (t : MessageCacher Thread Message). t.val.page_count) b;
}

module _ (env : Env) where
  insert_fetched-Keeps :
      (f : ThreadFeed) (sent : List Sent) (req : InsertPost) (now : ℕ) (o : Option PageRecord)
      → Keeps f (insert_fetched env f sent req now o).0.0
  insert_fetched-Keeps f sent req now none = self-Keeps f
  insert_fetched-Keeps f sent req now (some (mutable p)) =
      insert-Keeps f _ req.page _ refl refl refl
  insert_fetched-Keeps f sent req now (some (immutable msg)) = self-Keeps f
  insert_fetched-Keeps f sent req now (some unfetched) = self-Keeps f

  pub insert_in-Keeps :
      (f : ThreadFeed) (sent : List Sent) (req : InsertPost) (now : ℕ) (o : Option PageRecord)
      → Keeps f (insert_in env f sent req now o).0.0
  insert_in-Keeps f sent req now none = insert-Keeps f _ req.page _ refl refl refl
  insert_in-Keeps f sent req now (some (immutable msg)) = self-Keeps f
  insert_in-Keeps f sent req now (some (mutable p)) = insert-Keeps f _ req.page _ refl refl refl
  insert_in-Keeps f sent req now (some unfetched) =
      insert_fetched-Keeps f sent req now (fetch_page env f.thread_meta.val.id req.page)

  -- After an insertion, be it refused, its page is there.
  pub has-insert_in :
      (f : ThreadFeed) (sent : List Sent) (req : InsertPost) (now : ℕ)
      → has (insert_in env f sent req now (HashMap.get f.pages req.page)).0.0.pages req.page ≡ true
  has-insert_in f sent req now = at (HashMap.get f.pages req.page) refl
    where
      at :
          (o : Option PageRecord)
          → HashMap.get f.pages req.page ≡ o
          → has (insert_in env f sent req now o).0.0.pages req.page ≡ true
      at none e = has-insert f.pages req.page _
      at (some rec) e = (insert_in-Keeps f sent req now (some rec)).pages req.page (ap is_some e)

  close_found-Keeps :
      (f : ThreadFeed) (sent : List Sent) (page id : ℕ) (body : Node) (p : Bundle Post)
      (o : Option (MessageCacher Post Message))
      → Keeps f (close_found env f sent page id body p o).0.0
  close_found-Keeps f sent page id body p none = insert-Keeps f _ page _ refl refl refl
  close_found-Keeps f sent page id body p (some c) = insert-Keeps f _ page _ refl refl refl

  close_fetched-Keeps :
      (f : ThreadFeed) (sent : List Sent) (page id : ℕ) (body : Node) (o : Option PageRecord)
      → Keeps f (close_fetched env f sent page id body o).0.0
  close_fetched-Keeps f sent page id body none = insert-Keeps f _ page _ refl refl refl
  close_fetched-Keeps f sent page id body (some (mutable p)) =
      close_found-Keeps f sent page id body p (HashMap.get p.items id)
  close_fetched-Keeps f sent page id body (some (immutable msg)) =
      insert-Keeps f _ page _ refl refl refl
  close_fetched-Keeps f sent page id body (some unfetched) = insert-Keeps f _ page _ refl refl refl

  pub close_in-Keeps :
      (f : ThreadFeed) (sent : List Sent) (page id : ℕ) (body : Node) (o : Option PageRecord)
      → Keeps f (close_in env f sent page id body o).0.0
  close_in-Keeps f sent page id body (some (mutable p)) =
      close_found-Keeps f sent page id body p (HashMap.get p.items id)
  close_in-Keeps f sent page id body (some (immutable msg)) = self-Keeps f
  close_in-Keeps f sent page id body (some unfetched) =
      close_fetched-Keeps f sent page id body (fetch_page env f.thread_meta.val.id page)
  close_in-Keeps f sent page id body none =
      close_fetched-Keeps f sent page id body (fetch_page env f.thread_meta.val.id page)

  -- Immutable or not, the pages stay where they are.
  pub try_pages-Includes : (thread : ℕ) (m : Pages) → Includes (try_pages env thread m).0 m
  unfolding try_pages HashMap.get
  try_pages-Includes thread [] k h = h
  try_pages-Includes thread ((j, rec) ∷ m) k h =
      at (try_page env thread j rec) (try_pages-Includes thread m k)
    where
      at :
          (r : PageRecord × Option Error)
          → (has m k ≡ true → has (try_pages env thread m).0 k ≡ true)
          → has (and_pages env j m r (try_pages env thread m)).0 k ≡ true
      at (rec', some e) ih = ground arith
      at (rec', none) ih = ground arith

  abbrev OptionIncludes : {A : Type 0} → Pages → Option (Pages × A) → Type 0
  OptionIncludes m none = Unit {0}
  OptionIncludes m (some (m', x)) = Includes m' m

  process_in-Includes :
      (thread : ℕ) (m : Pages) (id : ℕ) (bodies : Bodies) (o : Option PageRecord)
      → OptionIncludes m (process_in env thread m id bodies o)
  process_in-Includes thread m id bodies none = λ k h. h
  process_in-Includes thread m id bodies (some (immutable msg)) = λ k h. h
  process_in-Includes thread m id bodies (some (mutable p)) = insert-Includes m id _
  process_in-Includes thread m id bodies (some unfetched) = fetched (fetch_page env thread id)
    where
      fetched : (o : Option PageRecord) → OptionIncludes m (process_unfetched env m id bodies o)
      fetched none = tt
      fetched (some rec) = insert-Includes m id _

  pub process_all-Includes :
      (thread : ℕ) (m : Pages) (pending : HashMap ℕ Bodies) (batch : List Mutation)
      → Includes (process_all env thread m pending batch).0 m
  unfolding process_all
  process_all-Includes thread m [] batch k h = h
  process_all-Includes thread m ((id, bodies) ∷ pending) batch k h =
      at (process_in env thread m id bodies (HashMap.get m id))
        (process_in-Includes thread m id bodies (HashMap.get m id))
        (λ m' ms. process_all-Includes thread m' pending (batch ++ ms))
    where
      at :
          (o : Option (Pages × List Mutation))
          → OptionIncludes m o
          → ((m' : Pages) (ms : List Mutation)
              → Includes (process_all env thread m' pending (batch ++ ms)).0 m')
          → has
              (elim o as (λ _. Pages × Option (List Mutation)) [
                | none ↦ (m, none)
                | some r ↦ process_all env thread r.0 pending (batch ++ r.1)
              ]).0
              k
            ≡ true
      at none i ih = h
      at (some (m', ms)) i ih = ih m' ms k (i k h)

  to_waiting-Includes :
      (m : Pages) (page : ℕ) (clients : List ℕ) (r : Bundle Post × Option Message)
      → Includes (to_waiting env m page clients r).0 m
  to_waiting-Includes m page clients (p, none) = insert-Includes m page _
  to_waiting-Includes m page clients (p, some msg) = insert-Includes m page _

  send_page-Includes :
      (m : Pages) (page : ℕ) (clients : List ℕ) (o : Option PageRecord)
      → Includes (send_page env m page clients o).0 m
  send_page-Includes m page clients none = λ k h. h
  send_page-Includes m page clients (some unfetched) = λ k h. h
  send_page-Includes m page clients (some (immutable msg)) = λ k h. h
  send_page-Includes m page clients (some (mutable p)) = to_waiting-Includes m page clients _

  pub send_pages-Includes :
      (m : Pages) (waiting : HashMap ℕ (List ℕ)) (sent : List Sent)
      → Includes (send_pages env m waiting sent).0.0 m
  unfolding send_pages
  send_pages-Includes m [] sent k h = h
  send_pages-Includes m ((page, clients) ∷ rest) sent k h =
      at (send_page env m page clients (HashMap.get m page))
        (send_page-Includes m page clients (HashMap.get m page) k h)
        (λ m' more. send_pages-Includes m' rest (sent ++ more) k)
    where
      at :
          (r : Pages × Option (List Sent))
          → has r.0 k ≡ true
          → ((m' : Pages) (more : List Sent)
              → has m' k ≡ true
              → has (send_pages env m' rest (sent ++ more)).0.0 k ≡ true)
          → has
              (elim r.1 as (λ _. (Pages × List Sent) × Option Error) [
                | none ↦ ((r.0, sent), some Error.encoding)
                | some more ↦ send_pages env r.0 rest (sent ++ more)
              ]).0.0
              k
            ≡ true
      at (m', none) i ih = i
      at (m', some more) i ih = ih m' more i
