-- ===== src/Feeds/Thread/Pulse.antt =====
-- `Handler<Pulse>` and `diff_open_bodies` of `ThreadFeed` (server/src/feeds/thread/mod.rs).
-- The clients that the registry answers with are an argument; that it answers with an error, with
-- which the pulse ends, is not modelled.
use shamichan.Prelude.{ℕ, List, [], ◌∷◌, ◌++◌, map, Option, none, some, true, false, if◌then◌else◌}
use shamichan.Prelude.Eq.{ℕ_eq}
use shamichan.Collections.HashMap
use shamichan.Collections.HashMap.{HashMap}
use shamichan.Codec.MessageType.{MessageType}
use shamichan.PostBody.Node.{Node, Patch}
use shamichan.PostBody.Diff.{diff}
use shamichan.Payloads.{Post}
use shamichan.Server.MessageCacher.{MessageCacher}
use shamichan.Server.MessageCacher
use shamichan.Feeds.Changes.{Change, Sent, send_message, persist_bodies}
use shamichan.Feeds.Bundle.{Message, Items, Bundle, get_message, deref_mut}
use shamichan.Feeds.Writer.{Writer, write_post_message, flush}
use shamichan.Feeds.Thread.{
  Env, PageRecord, unfetched, mutable, immutable, Error, Pages, Bodies, ThreadFeed, Outcome,
  fetch_page,
}
use shamichan.Feeds.Thread.Handlers.{fail, done, page_message}

-- A post that is to be patched, with its new body.
pub record Mutation : Type 0 where
  pub id : ℕ
  pub patch : Patch
  pub body : Node

abbrev pub and_open :
    ℕ
    → List ℕ
    → Option (MessageCacher Post Message)
    → List (ℕ × Node × List ℕ)
    → List (ℕ × Node × List ℕ)
and_open id body none rest = rest
and_open id body (some c) rest = if c.val.is_open then (id, c.val.body, body) ∷ rest else rest

-- The open posts of a page among those that are pending, with the old and the new body.
unfoldable pub to_diff : Items Post → Bodies → List (ℕ × Node × List ℕ)
to_diff page [] = []
to_diff page ((id, body) ∷ pending) = and_open id body (HashMap.get page id) (to_diff page pending)

abbrev pub with_body : Node → Post → Post
with_body body p = record p { body = body }

module _ (env : Env) where
  abbrev pub and_mutation : ℕ → Node → Option Patch → List Mutation → List Mutation
  and_mutation id body none rest = rest
  and_mutation id body (some p) rest = record { id = id; patch = p; body = body } ∷ rest

  unfoldable pub mutations : List (ℕ × Node × List ℕ) → List Mutation
  unfolding diff
  mutations [] = []
  mutations ((id, old, new) ∷ rest) =
      let body = env.parse new true in and_mutation id body (diff old body) (mutations rest)

  abbrev pub set_in : Items Post → ℕ → Node → Option (MessageCacher Post Message) → Items Post
  set_in m id body none = m
  set_in m id body (some c) =
      HashMap.insert m id (MessageCacher.deref_mut env.encode_post (with_body body) c)

  unfoldable pub set_bodies : List Mutation → Bundle Post → Bundle Post
  unfolding deref_mut MessageCacher.deref_mut
  set_bodies [] p = p
  set_bodies (m ∷ ms) p =
      set_bodies ms (deref_mut (λ items. set_in items m.id m.body (HashMap.get items m.id)) p)

  -- `process`: the page after the call and what is added to the batch.
  unfoldable pub process : Bundle Post → Bodies → Bundle Post × List Mutation
  unfolding to_diff mutations set_bodies
  process p pending = let ms = mutations (to_diff p.items pending) in (set_bodies ms p, ms)

  abbrev pub process_fetched : PageRecord → Bodies → PageRecord × List Mutation
  process_fetched (mutable p) pending = let (p', ms) = process p pending in (mutable p', ms)
  process_fetched rec pending = (rec, [])

  abbrev pub process_unfetched :
      Pages → ℕ → Bodies → Option PageRecord → Option (Pages × List Mutation)
  process_unfetched pages id pending none = none
  process_unfetched pages id pending (some rec) =
      let (rec', ms) = process_fetched rec pending in some (HashMap.insert pages id rec', ms)

  -- The pages after one page, and what is added to the batch; none for an error of the database.
  abbrev pub process_in :
      ℕ → Pages → ℕ → Bodies → Option PageRecord → Option (Pages × List Mutation)
  process_in thread pages id pending (some unfetched) =
      process_unfetched pages id pending (fetch_page env thread id)
  process_in thread pages id pending (some (mutable p)) =
      let (p', ms) = process p pending in some (HashMap.insert pages id (mutable p'), ms)
  process_in thread pages id pending (some (immutable msg)) = some (pages, [])
  process_in thread pages id pending none = some (pages, [])

  -- The loop over the pages: the pages after it, and the batch, none for an error.
  unfoldable pub process_all :
      ℕ → Pages → HashMap ℕ Bodies → List Mutation → Pages × Option (List Mutation)
  unfolding process fetch_page
  process_all thread pages [] batch = (pages, some batch)
  process_all thread pages ((id, bodies) ∷ pending) batch =
      elim (process_in thread pages id bodies (HashMap.get pages id)) [
        | none ↦ (pages, none)
        | some r ↦ process_all thread r.0 pending (batch ++ r.1)
      ]

  abbrev pub write_mutations : Writer → List Mutation → Writer
  write_mutations w [] = w
  write_mutations w (m ∷ ms) =
      write_mutations
        (write_post_message w m.id MessageType.patch_post_body (env.patching m.id m.patch)
          (Change.set_body m.id m.body false))
        ms

  abbrev pub flushed_bodies : List Mutation → List Sent
  flushed_bodies [] = []
  flushed_bodies (m ∷ ms) = persist_bodies (map (λ n. (n.id, n.body)) (m ∷ ms)) ∷ []

  abbrev pub diffed : ThreadFeed → Pages × Option (List Mutation) → Outcome
  diffed f (pages, none) =
      fail (record f { pages = pages; pending_open_bodies = [] }) [] Error.database
  diffed f (pages, some ms) =
      done
        (record f { pages = pages; pending_open_bodies = []; writer = write_mutations f.writer ms })
        (flushed_bodies ms)

  -- `diff_open_bodies`
  unfoldable pub diff_open_bodies : ThreadFeed → Outcome
  unfolding process_all write_post_message
  diff_open_bodies f = diffed f (process_all f.thread_meta.val.id f.pages f.pending_open_bodies [])

  abbrev pub to_waiting :
      Pages → ℕ → List ℕ → Bundle Post × Option Message → Pages × Option (List Sent)
  to_waiting pages page clients (p, none) = (HashMap.insert pages page (mutable p), none)
  to_waiting pages page clients (p, some msg) =
      (HashMap.insert pages page (mutable p), some (map (λ c. send_message c msg) clients))

  -- One page that is deferred: the pages after it and what is sent, none for an error.
  abbrev pub send_page : Pages → ℕ → List ℕ → Option PageRecord → Pages × Option (List Sent)
  send_page pages page clients (some (immutable msg)) =
      (pages, some (map (λ c. send_message c msg) clients))
  send_page pages page clients (some (mutable p)) =
      to_waiting pages page clients (page_message env p)
  send_page pages page clients (some unfetched) = (pages, some [])
  send_page pages page clients none = (pages, some [])

  -- The loop over the deferred fetches: an error ends it, with what was sent up to it.
  unfoldable pub send_pages :
      Pages → HashMap ℕ (List ℕ) → List Sent → (Pages × List Sent) × Option Error
  unfolding get_message
  send_pages pages [] sent = ((pages, sent), none)
  send_pages pages ((page, clients) ∷ rest) sent =
      let r = send_page pages page clients (HashMap.get pages page) in
      elim r.1 [
        | none ↦ ((r.0, sent), some Error.encoding)
        | some more ↦ send_pages r.0 rest (sent ++ more)
      ]

  abbrev pub flush_to : ThreadFeed → List Sent → List ℕ → Outcome
  flush_to f sent clients =
      let (w, written) = flush env.deflate f.writer clients in
      done (record f { clients = clients; writer = w }) (sent ++ written)

  abbrev pub then_flush : List Sent → List ℕ → Outcome → Outcome
  then_flush sent clients ((f, more), some e) = fail f (sent ++ more) e
  then_flush sent clients ((f, more), none) = flush_to f (sent ++ more) clients

  abbrev pub then_diff : ThreadFeed → List ℕ → (Pages × List Sent) × Option Error → Outcome
  then_diff f clients ((pages, sent), some e) = fail (record f { pages = pages }) sent e
  then_diff f clients ((pages, sent), none) =
      then_flush sent clients (diff_open_bodies (record f { pages = pages }))

  -- `Handler<Pulse>`, with the clients that the registry gives
  unfoldable pub pulse : ThreadFeed → List ℕ → Outcome
  unfolding send_pages diff_open_bodies flush
  pulse f clients =
      let f' : ThreadFeed = record f { pending_pulse = false; deferred_page_fetches = [] } in
      then_diff f' clients (send_pages f'.pages f.deferred_page_fetches [])
