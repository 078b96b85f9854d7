-- ===== src/Feeds/Thread/Handlers.antt =====
-- The message handlers of `ThreadFeed` (server/src/feeds/thread/mod.rs).
use shamichan.Prelude.{
  leb, ℕ, suc, ◌-◌, ◌^◌, List, [], ◌∷◌, ◌++◌, Option, none, some, Bool, if◌then◌else◌, ◌&&◌, ltb,
}
use shamichan.Prelude.Eq.{ℕ_eq}
use shamichan.Collections.HashMap
use shamichan.Collections.HashMap.{HashMap}
use shamichan.Codec.MessageType.{MessageType}
use shamichan.PostBody.Node.{ℤ, pos, negsuc}
use shamichan.Payloads.{Post, Thread, ReplyCreationOpts, new_post}
use shamichan.Server.MessageCacher.{MessageCacher}
use shamichan.Server.MessageCacher
use shamichan.Feeds.Changes.{Change, Sent, send_message, disconnect}
use shamichan.Feeds.Bundle.{Message, Bundle, get_message, deref_mut, get_cached_message}
use shamichan.Feeds.Writer.{write_message, write_global_change, register_post_id}
use shamichan.Feeds.Thread.{
  Env, PageRecord, unfetched, mutable, immutable, Error, ThreadFeed, Outcome, new_mutable,
  schedule_pulse, fetch_page,
}

-- `InsertPost`
pub record InsertPost : Type 0 where
  pub id : ℕ
  pub thread : ℕ
  pub page : ℕ
  pub opts : ReplyCreationOpts

abbrev pub last_page : ℕ → Thread → Thread
last_page page t = record t { page_count = page }

abbrev pub bump : ℕ → Thread → Thread
bump now t = record t { bumped_on = now }

abbrev pub or_empty : {A : Type 0} → Option (List A) → List A
or_empty none = []
or_empty (some xs) = xs

abbrev pub fail : ThreadFeed → List Sent → Error → Outcome
fail f sent e = ((f, sent), some e)

abbrev pub done : ThreadFeed → List Sent → Outcome
done f sent = ((f, sent), none)

-- `Handler<WakeUp>`
unfoldable pub wake_up : ThreadFeed → Outcome
unfolding schedule_pulse
wake_up f = let (f', sent) = schedule_pulse f in done f' sent

-- `Handler<SetBody>`
unfoldable pub set_body : ThreadFeed → ℕ → ℕ → List ℕ → Outcome
unfolding schedule_pulse
set_body f page id body =
    let (f', sent) = schedule_pulse f in
    let bodies = or_empty (HashMap.get f'.pending_open_bodies page) in
    done
      (record f' {
        pending_open_bodies =
            HashMap.insert f'.pending_open_bodies page (HashMap.insert bodies id body);
      })
      sent

module _ (env : Env) where
  abbrev pub page_message : Bundle Post → Bundle Post × Option Message
  page_message = get_message env.encode_post MessageType.post env.page_start env.page_end

  -- `insert_post!` on a mutable page
  abbrev pub insert_into : ThreadFeed → List Sent → InsertPost → ℕ → Bundle Post → Outcome
  insert_into f sent req now p =
      let post = new_post req.id req.thread req.page now req.opts in
      let payload = env.notification (record {
        id = req.id;
        page = req.page;
        thread = f.thread_meta.val.id;
        time = now;
        opts = req.opts;
      }) in
      let w = write_message (register_post_id f.writer req.id) MessageType.insert_post payload in
      done
        (record f {
          pages = HashMap.insert f.pages req.page (
              mutable (
                deref_mut (λ m. HashMap.insert m req.id (record { val = post; cached = none })) p));
          writer = write_global_change w MessageType.insert_post payload (Change.insert_post post);
        })
        sent

  abbrev pub insert_fetched : ThreadFeed → List Sent → InsertPost → ℕ → Option PageRecord → Outcome
  insert_fetched f sent req now none = fail f sent Error.database
  insert_fetched f sent req now (some (mutable p)) = insert_into f sent req now p
  insert_fetched f sent req now (some _) = fail f sent (Error.immutable_page req.page)

  abbrev pub insert_in : ThreadFeed → List Sent → InsertPost → ℕ → Option PageRecord → Outcome
  insert_in f sent req now none =
      let post = new_post req.id req.thread req.page now req.opts in
      done (record f { pages = HashMap.insert f.pages req.page (new_mutable (post ∷ [])) }) sent
  insert_in f sent req now (some (immutable msg)) = fail f sent (Error.immutable_page req.page)
  insert_in f sent req now (some (mutable p)) = insert_into f sent req now p
  insert_in f sent req now (some unfetched) =
      insert_fetched f sent req now (fetch_page env f.thread_meta.val.id req.page)

  abbrev pub update_meta : (Thread → Thread) → ThreadFeed → ThreadFeed
  update_meta g f = record f {
    thread_meta = MessageCacher.deref_mut env.encode_thread g f.thread_meta;
  }

  abbrev pub raise_page_count : ℕ → ThreadFeed → ThreadFeed
  raise_page_count page f =
      if ltb f.thread_meta.val.page_count page then update_meta (last_page page) f else f

  abbrev pub bump_unless : Bool → ℕ → ThreadFeed → ThreadFeed
  bump_unless sage now f = if sage then f else update_meta (bump now) f

  -- `Handler<InsertPost>`
  unfoldable pub insert_post : ThreadFeed → InsertPost → ℕ → Outcome
  unfolding schedule_pulse fetch_page new_mutable MessageCacher.deref_mut deref_mut write_message
      write_global_change register_post_id
  insert_post f req now =
      let (f', sent) = schedule_pulse f in
      let g = bump_unless req.opts.sage now (raise_page_count req.page f') in
      insert_in g sent req now (HashMap.get g.pages req.page)

  -- The index of a page that is asked for, negative ones counted from the end: none out of bounds.
  -- As an `i32`, a count above 2 ^ 31 is negative, and every page out of bounds; at 2 ^ 31 the greatest
  -- index wraps to 2 ^ 31 - 1.
  abbrev pub page_index : ℕ → ℤ → Option ℕ
  page_index page_count (pos n) =
      if leb page_count (2 ^ 31) && ltb n page_count then some n else none
  page_index page_count (negsuc n) =
      if leb page_count (2 ^ 31) && ltb n page_count then some (page_count - suc n) else none

  abbrev pub send_fetched : ThreadFeed → ℕ → ℕ → Bundle Post × Option Message → Outcome
  send_fetched f client id (p, none) = fail f [] Error.encoding
  send_fetched f client id (p, some msg) =
      done (record f { pages = HashMap.insert f.pages id (mutable p) })
        (send_message client msg ∷ [])

  abbrev pub fetch_new : ThreadFeed → ℕ → ℕ → Option PageRecord → Outcome
  fetch_new f client id none = fail f [] Error.database
  fetch_new f client id (some unfetched) = fail f [] Error.database
  fetch_new f client id (some (mutable p)) = send_fetched f client id (page_message p)
  fetch_new f client id (some (immutable msg)) =
      done (record f { pages = HashMap.insert f.pages id (immutable msg) })
        (send_message client msg ∷ [])

  abbrev pub send_or_defer : ThreadFeed → ℕ → ℕ → Option Message → Outcome
  send_or_defer f client id (some msg) = done f (send_message client msg ∷ [])
  send_or_defer f client id none =
      let (f', sent) = schedule_pulse f in
      let waiting = or_empty (HashMap.get f'.deferred_page_fetches id) in
      done
        (record f' {
          deferred_page_fetches =
              HashMap.insert f'.deferred_page_fetches id (waiting ++ client ∷ []);
        })
        sent

  abbrev pub fetch_at : ThreadFeed → ℕ → ℕ → Option PageRecord → Outcome
  fetch_at f client id none = fail f [] Error.page_not_inserted
  fetch_at f client id (some unfetched) =
      fetch_new f client id (fetch_page env f.thread_meta.val.id id)
  fetch_at f client id (some (mutable p)) = send_or_defer f client id (get_cached_message p)
  fetch_at f client id (some (immutable msg)) = done f (send_message client msg ∷ [])

  abbrev pub fetch_index : ThreadFeed → ℕ → Option ℕ → Outcome
  fetch_index f client none = done f (disconnect client ∷ [])
  fetch_index f client (some id) =
      if ltb (2 ^ 31 - 1) id
      then fail f [] Error.page_id_overflow
      else fetch_at f client id (HashMap.get f.pages id)

  -- `Handler<FetchPage>`: the error `page_not_inserted` is a panic.
  unfoldable pub fetch : ThreadFeed → ℤ → ℕ → Outcome
  unfolding schedule_pulse fetch_page get_message get_cached_message
  fetch f id client = fetch_index f client (page_index f.thread_meta.val.page_count id)

  abbrev pub send_meta : ThreadFeed → ℕ → Option (MessageCacher Thread Message × Message) → Outcome
  send_meta f client none = fail f [] Error.encoding
  send_meta f client (some (c, msg)) =
      done (record f { thread_meta = c }) (send_message client msg ∷ [])

  -- `Handler<FetchFeedData>`
  unfoldable pub fetch_feed_data : ThreadFeed → ℕ → Outcome
  unfolding MessageCacher.get_message
  fetch_feed_data f client =
      send_meta f client
        (MessageCacher.get_message env.encode_thread f.thread_meta MessageType.thread_meta)
