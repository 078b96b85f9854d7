-- ===== src/Feeds/Thread/Edits.antt =====
-- The handlers `ClosePost` and `TryMakePagesImmutable` of `ThreadFeed`
-- (server/src/feeds/thread/mod.rs).
use shamichan.Prelude.{ℕ, List, [], ◌∷◌, map, Option, none, some, true, false, if◌then◌else◌}
use shamichan.Prelude.Eq.{ℕ_eq}
use shamichan.Collections.HashMap
use shamichan.Collections.HashMap.{HashMap}
use shamichan.Codec.MessageType.{MessageType}
use shamichan.PostBody.Node.{Node}
use shamichan.Payloads.{Post}
use shamichan.Server.MessageCacher.{MessageCacher}
use shamichan.Server.MessageCacher
use shamichan.Feeds.Changes.{Change, Sent}
use shamichan.Feeds.Bundle.{Message, Bundle, values, deref_mut}
use shamichan.Feeds.Writer.{write_post_message}
use shamichan.Feeds.Thread.{
  Env, PageRecord, unfetched, mutable, immutable, Error, Pages, Bodies, ThreadFeed, Outcome,
  can_be_made_immutable, schedule_pulse, new_immutable, fetch_page,
}
use shamichan.Feeds.Thread.Handlers.{fail, done}

abbrev pub closed : Node → Post → Post
closed body p = record p { is_open = false; body = body }

abbrev pub cancel_in : HashMap ℕ Bodies → ℕ → ℕ → Option Bodies → HashMap ℕ Bodies
cancel_in pending page id none = pending
cancel_in pending page id (some bodies) = HashMap.insert pending page (HashMap.remove bodies id)

-- The open body of a post that is not to be written any more.
unfoldable pub cancel : HashMap ℕ Bodies → ℕ → ℕ → HashMap ℕ Bodies
cancel pending page id = cancel_in pending page id (HashMap.get pending page)

abbrev pub set_page : ℕ → PageRecord → ThreadFeed → ThreadFeed
set_page page rec f = record f { pages = HashMap.insert f.pages page rec }

abbrev pub post_values : List (ℕ × Post) → List Post
post_values m = map (λ kp. kp.1) m

module _ (env : Env) where
  -- The post `id` of a mutable page, which is in the map of pages.
  abbrev pub close_found :
      ThreadFeed
      → List Sent
      → ℕ
      → ℕ
      → Node
      → Bundle Post
      → Option (MessageCacher Post Message)
      → Outcome
  close_found f sent page id body p none =
      fail (set_page page (mutable (deref_mut (λ m. m) p)) f) sent (Error.post_not_found id)
  close_found f sent page id body p (some c) =
      let post = MessageCacher.deref_mut env.encode_post (closed body) c in
      let g = set_page page (mutable (deref_mut (λ m. HashMap.insert m id post) p)) f in
      done
        (record g {
          pending_open_bodies = cancel g.pending_open_bodies page id;
          writer =
              write_post_message g.writer id MessageType.close_post (env.closing id body)
                (Change.set_body id body true);
        })
        sent

  abbrev pub close_fetched : ThreadFeed → List Sent → ℕ → ℕ → Node → Option PageRecord → Outcome
  close_fetched f sent page id body none = fail (set_page page unfetched f) sent Error.database
  close_fetched f sent page id body (some (mutable p)) =
      close_found f sent page id body p (HashMap.get p.items id)
  close_fetched f sent page id body (some rec) =
      fail (set_page page rec f) sent (Error.immutable_page page)

  abbrev pub close_in : ThreadFeed → List Sent → ℕ → ℕ → Node → Option PageRecord → Outcome
  close_in f sent page id body (some (mutable p)) =
      close_found f sent page id body p (HashMap.get p.items id)
  close_in f sent page id body (some (immutable msg)) = fail f sent (Error.immutable_page page)
  close_in f sent page id body (some unfetched) =
      close_fetched f sent page id body (fetch_page env f.thread_meta.val.id page)
  close_in f sent page id body none =
      close_fetched f sent page id body (fetch_page env f.thread_meta.val.id page)

  -- `Handler<ClosePost>`, of a page, a post and its body
  unfoldable pub close_post : ThreadFeed → ℕ → ℕ → Node → Outcome
  unfolding schedule_pulse fetch_page deref_mut MessageCacher.deref_mut write_post_message cancel
  close_post f page id body =
      let (f', sent) = schedule_pulse f in close_in f' sent page id body (HashMap.get f'.pages page)

  -- A page of which the posts are taken, and the error if it is not written.
  abbrev pub made_immutable : Option PageRecord → PageRecord × Option Error
  made_immutable none = (unfetched, some Error.encoding)
  made_immutable (some rec) = (rec, none)

  unfoldable pub try_page : ℕ → ℕ → PageRecord → PageRecord × Option Error
  unfolding can_be_made_immutable new_immutable
  try_page thread page (mutable p) =
      let posts = post_values (values p.items) in
      if can_be_made_immutable posts
      then made_immutable
          (new_immutable env (record { thread = thread; page = page; posts = posts }))
      else (mutable p, none)
  try_page thread page rec = (rec, none)

  -- The loop ends at the first error.
  abbrev pub and_pages :
      ℕ → Pages → PageRecord × Option Error → Pages × Option Error → Pages × Option Error
  and_pages k m (rec, some e) rest = ((k, rec) ∷ m, some e)
  and_pages k m (rec, none) (m', e) = ((k, rec) ∷ m', e)

  unfoldable pub try_pages : ℕ → Pages → Pages × Option Error
  unfolding try_page
  try_pages thread [] = ([], none)
  try_pages thread ((k, rec) ∷ m) = and_pages k m (try_page thread k rec) (try_pages thread m)

  -- `Handler<TryMakePagesImmutable>`
  unfoldable pub try_make_pages_immutable : ThreadFeed → Outcome
  unfolding try_pages
  try_make_pages_immutable f =
      let (pages, e) = try_pages f.thread_meta.val.id f.pages in
      ((record f { pages = pages }, []), e)
