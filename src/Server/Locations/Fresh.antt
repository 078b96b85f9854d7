-- ===== src/Server/Locations/Fresh.antt =====
-- A location that is cached is not lost to a fetch that is still going on (server/src/body/links.rs).
use shamichan.Prelude.{
  ℕ, suc, ◌≡◌, ◌≢◌, ◌<◌, refl, ap, sym, ◌∙◌, subst, List, [], ◌∷◌, Option, none, some, true, false,
  if◌then◌else◌, arith,
}
use shamichan.Prelude.Eq.{eq, ℕ_eq}
use shamichan.Collections.HashMap
use shamichan.Collections.HashMap.{HashMap, get-insert}
use shamichan.Server.Locations.{
  PostLocation, not_fetched, does_not_exist, exists, PostLocationCache, KnownPostLocation, read,
  or_default, entry, entry_at, located, Begun, begin, read_as, write, fetched, resolve, resolve_in,
  cache_locations,
}

-- What tasks do to the cache, one after the other. A task may hold any cell.
pub data Step : Type 0 where
  begins : ℕ → Step
  resolves : ℕ → Option (Option (ℕ × ℕ)) → Step
  caches : KnownPostLocation → Step

unfoldable pub step : PostLocationCache → Step → PostLocationCache
unfolding begin resolve cache_locations
step c (begins id) = (begin c id).0
step c (resolves cell db) = (resolve c cell db).0
step c (caches l) = cache_locations c (l ∷ [])

abbrev pub run : PostLocationCache → List Step → PostLocationCache
run c [] = c
run c (s ∷ ss) = run (step c s) ss

-- No step caches another location of the post.
abbrev pub Leaves : ℕ → List Step → Type 0
Leaves id [] = Unit {0}
Leaves id (caches l ∷ ss) = (l.id ≢ id) × Leaves id ss
Leaves id (s ∷ ss) = Leaves id ss

-- The entry of the post has a cell with the location.
pub record Holds (id thread page : ℕ) (c : PostLocationCache) : Type 0 where
  pub cell : ℕ
  pub entry : HashMap.get c.entries id ≡ some cell
  pub known : HashMap.get c.cells cell ≡ some (exists thread page)
  pub old : cell < c.next

get-insert_other :
    {V : Type 0} (m : HashMap ℕ V) (k j : ℕ) (v : V)
    → k ≢ j
    → HashMap.get (HashMap.insert m k v) j ≡ HashMap.get m j
get-insert_other m k j v ne =
    let e : eq k j ≡ false = ground (arith, ℕ_eq.eq_iff k j) in
    get-insert m k j v ∙ ap (λ b. if b then some v else HashMap.get m j) e

get-insert_self :
    {V : Type 0} (m : HashMap ℕ V) (k : ℕ) (v : V) → HashMap.get (HashMap.insert m k v) k ≡ some v
get-insert_self m k v =
    let e : eq k k ≡ true = ground (arith, ℕ_eq.eq_iff k k) in
    get-insert m k k v ∙ ap (λ b. if b then some v else HashMap.get m k) e

module _ (id thread page : ℕ) where
  -- A new cell in the entry of another post.
  other_entry :
      (c : PostLocationCache) (j : ℕ) (l : PostLocation)
      → j ≢ id
      → Holds id thread page c
      → Holds id thread page (record {
        entries = HashMap.insert c.entries j c.next;
        cells = HashMap.insert c.cells c.next l;
        next = suc c.next;
      })
  other_entry c j l ne h = record {
    cell = h.cell;
    entry = get-insert_other c.entries j id c.next ne ∙ h.entry;
    known = get-insert_other c.cells c.next h.cell l (λ e. ground (arith, h.old)) ∙ h.known;
    old = ground (arith, h.old);
  }

  entry_at-Holds :
      (c : PostLocationCache) (j : ℕ) (o : Option ℕ)
      → HashMap.get c.entries j ≡ o
      → Holds id thread page c
      → Holds id thread page (entry_at c j o).0
  entry_at-Holds c j (some cell) e h = h
  entry_at-Holds c j none e h =
      other_entry c j not_fetched
        (λ i.
          absurd (ground (arith, sym (subst (λ k. HashMap.get c.entries k ≡ none) i e) ∙ h.entry)))
        h

  write-Holds :
      (c : PostLocationCache) (cell : ℕ) (l : PostLocation)
      → read c cell ≡ not_fetched
      → Holds id thread page c
      → Holds id thread page (write c cell l)
  unfolding read
  write-Holds c cell l e h = record {
    cell = h.cell;
    entry = h.entry;
    known =
        get-insert_other c.cells cell h.cell l (λ i. absurd (
          ground (
            arith,
            sym (subst (λ k. or_default (HashMap.get c.cells k) ≡ not_fetched) i e)
                ∙ ap or_default h.known,
          )))
        ∙ h.known;
    old = h.old;
  }

  fetched-Holds :
      (c : PostLocationCache) (cell : ℕ) (db : Option (Option (ℕ × ℕ)))
      → read c cell ≡ not_fetched
      → Holds id thread page c
      → Holds id thread page (fetched c cell db).0
  fetched-Holds c cell none e h = h
  fetched-Holds c cell (some none) e h = write-Holds c cell does_not_exist e h
  fetched-Holds c cell (some (some (t, p))) e h = write-Holds c cell (exists t p) e h

  resolve_in-Holds :
      (c : PostLocationCache) (cell : ℕ) (db : Option (Option (ℕ × ℕ))) (l : PostLocation)
      → read c cell ≡ l
      → Holds id thread page c
      → Holds id thread page (resolve_in c cell db l).0
  resolve_in-Holds c cell db (exists t p) e h = h
  resolve_in-Holds c cell db does_not_exist e h = h
  resolve_in-Holds c cell db not_fetched e h = fetched-Holds c cell db e h

  run-Holds :
      (c : PostLocationCache) (ss : List Step)
      → Leaves id ss
      → Holds id thread page c
      → Holds id thread page (run c ss)
  unfolding step begin entry resolve cache_locations
  run-Holds c [] n h = h
  run-Holds c (begins j ∷ ss) n h =
      run-Holds (step c (begins j)) ss n (entry_at-Holds c j (HashMap.get c.entries j) refl h)
  run-Holds c (resolves cell db ∷ ss) n h =
      run-Holds (step c (resolves cell db)) ss n (resolve_in-Holds c cell db (read c cell) refl h)
  run-Holds c (caches l ∷ ss) n h =
      run-Holds (step c (caches l)) ss n.1 (other_entry c l.id (exists l.thread l.page) n.0 h)

  -- Once the location of a post is cached, every later question for it is answered at once by that
  -- location, whatever questions begin and are resolved in between, also those that hold the cell
  -- which the location replaced, as long as no other location of the post is cached.
  pub begin-run :
      (c : PostLocationCache) (ss : List Step)
      → Leaves id ss
      → (begin
          (run (cache_locations c (record { id = id; thread = thread; page = page } ∷ [])) ss)
          id).1
        ≡ Begun.answered (located (some (thread, page)))
  unfolding begin entry read cache_locations
  begin-run c ss n =
      let h =
        run-Holds (cache_locations c (record { id = id; thread = thread; page = page } ∷ [])) ss n
          (record {
            cell = c.next;
            entry = get-insert_self c.entries id c.next;
            known = get-insert_self c.cells c.next (exists thread page);
            old = omega arith;
          }) in
      ap (λ o. (begun o).1) h.entry ∙ ap (λ o. read_as h.cell (or_default o)) h.known
    where
      final : PostLocationCache
      final = run (cache_locations c (record { id = id; thread = thread; page = page } ∷ [])) ss

      begun : Option ℕ → PostLocationCache × Begun
      begun o = let (c', cell) = entry_at final id o in (c', read_as cell (read c' cell))
