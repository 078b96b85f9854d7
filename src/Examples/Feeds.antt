-- ===== src/Examples/Feeds.antt =====
-- A thread with a post, its feed, and the index feed.
use shamichan.Prelude.{
  ◌⊎◌, List, subst, sym, ◌≡◌, ◌≤◌, ◌+◌, refl, [], ◌∷◌, Option, none, some, Bool, true, false,
  if◌then◌else◌, ◌==◌, arith,
}
use shamichan.Prelude.Eq.{ℕ_eq}
use shamichan.Collections.HashMap
use shamichan.Codec.MessageType.{MessageType}
use shamichan.PostBody.Node.{Node, pos}
use shamichan.PostBody.Diff.RoundTrip.{Fits}
use shamichan.Payloads.{Post, Thread, ThreadWithPosts, ReplyCreationOpts, new_post, new_thread}
use shamichan.Server.MessageCacher.{MessageCacher}
use shamichan.Feeds.Changes.{Change, disconnect}
use shamichan.Feeds.Bundle.{Message, Items, Bundle, deref_mut, get_message}
use shamichan.Feeds.Bundle.Fresh.{IsFresh, GivesAll, get_message-GivesAll}
use shamichan.Feeds.Writer.{Writer, write_post_message, write_global_change, write_message}
use shamichan.Feeds.Writer
use shamichan.Feeds.Writer.Propagation.{write_post_message_global}
use shamichan.Feeds.Index.{IndexFeed}
use shamichan.Feeds.Index.Pulse.{pulse}
use shamichan.Feeds.Index.Applied.{Applies, pulse-Applies}
use shamichan.Feeds.Index.Scheduled.{Request, IsScheduled, handle, handle_pulse-IsScheduled}
use shamichan.Feeds.BodyFlusher.Latest
use shamichan.Feeds.BodyFlusher.Latest.{Event, known, start, IsWaiting, run-last}
use shamichan.Feeds.Thread.{Env, ThreadFeed, PageRecord, unfetched, unfetched_pages, Bodies}
use shamichan.Feeds.Thread
use shamichan.Feeds.Thread.Handlers.{InsertPost, insert_post, fetch, done}
use shamichan.Feeds.Thread.Requests
use shamichan.Feeds.Thread.Scheduled
use shamichan.Feeds.Thread.Scheduled.{handle-IsScheduled}
use shamichan.Feeds.Thread.Complete.{run}
use shamichan.Feeds.Thread.Complete.Run.{panics, fetch-panics}
use shamichan.Feeds.Thread.Opened.{insert_post_first}
use shamichan.Feeds.Thread.Pulse.{process}
use shamichan.Feeds.Thread.Replayed.Current.{process-parse}
use shamichan.Feeds.Thread.Replayed.{AllFit, body_of, body_at, replay_at, some_inj, process-replay}

abbrev opts : ReplyCreationOpts
opts = record { sage = false; post_opts = record { name = none; trip = none; flag = none } }

abbrev first : Post
first = new_post 1 1 0 1000 opts

abbrev thread : Thread
thread = new_thread 1 1000 [] []

abbrev change : Change
change = Change.set_body 1 (Node.text (97 ∷ [])) true

abbrev writer : Writer
writer = Writer.new 1 50 (2 ∷ 3 ∷ [])

write_post_message_global_example :
    write_post_message writer 1 MessageType.close_post [] change
    ≡ write_global_change
        (write_message writer MessageType.close_post [])
        MessageType.close_post
        []
        change
write_post_message_global_example =
    write_post_message_global 1 50 2 (3 ∷ []) 1 MessageType.close_post [] change

-- The encodings of a post and of a thread are their identifiers.
abbrev encode_post : MessageType → Post → Option Message
encode_post t p = some (p.id ∷ [])

abbrev page : Bundle Post
page = record { cache = none; items = (1, record { val = first; cached = none }) ∷ [] }

page-IsFresh : IsFresh encode_post MessageType.post (8 ∷ []) (9 ∷ []) page
page-IsFresh = record { faithful = (tt, tt); caches = tt }

abbrev forget : Items Post → Items Post
forget items = []

get_message-GivesAll_example :
    GivesAll encode_post MessageType.post
      (8 ∷ [])
      (9 ∷ [])
      page
      (get_message encode_post MessageType.post (8 ∷ []) (9 ∷ []) page)
    × IsFresh encode_post MessageType.post (8 ∷ []) (9 ∷ []) (deref_mut forget page)
get_message-GivesAll_example =
    get_message-GivesAll encode_post MessageType.post (8 ∷ []) (9 ∷ []) page forget page-IsFresh tt

abbrev encode : MessageType → ThreadWithPosts → Option Message
encode t v = some (v.thread.id ∷ [])

-- Two sets are buffered, one of them for a thread that is not there, and a client waits.
abbrev index : IndexFeed
index = record {
  pending_pulse = true;
  clients = [];
  threads = record {
    bundle = record {
      cache = none;
      items =
          (1, record { val = record { thread = thread; posts = (1, first) ∷ [] }; cached = none })
          ∷ [];
    };
    used_tags = none;
  };
  changes =
      record { source_feed = 1; message = 5 ∷ []; changes = change ∷ [] }
      ∷ record { source_feed = 2; message = 6 ∷ []; changes = change ∷ [] }
      ∷ [];
  enc = none;
  deferred_fetches = 70 ∷ [];
}

index-IsFresh : IsFresh encode MessageType.thread_abbreviated (8 ∷ []) (9 ∷ []) index.threads.bundle
index-IsFresh = record { faithful = (tt, tt); caches = tt }

pulse-Applies_example :
    ((pulse encode (8 ∷ []) (9 ∷ []) (λ bytes. bytes) index (70 ∷ 71 ∷ [])).1 ≡ true)
    × Applies encode index
        (pulse encode (8 ∷ []) (9 ∷ []) (λ bytes. bytes) index (70 ∷ 71 ∷ [])).0.0
pulse-Applies_example =
    pulse-Applies encode (8 ∷ []) (9 ∷ []) (λ bytes. bytes) index (70 ∷ 71 ∷ []) _ index-IsFresh
      refl

handle_pulse-IsScheduled_example :
    IsScheduled (handle (λ t. []) (λ ts. none) index (Request.fetches 71)).0
    × IsScheduled (pulse encode (8 ∷ []) (9 ∷ []) (λ bytes. bytes) index (70 ∷ [])).0.0
handle_pulse-IsScheduled_example =
    handle_pulse-IsScheduled (λ t. []) (λ ts. none) encode (8 ∷ []) (9 ∷ []) (λ bytes. bytes) index
      (Request.fetches 71) (70 ∷ []) _ tt index-IsFresh refl

-- A database in which each page has the first post, and a parser that gives one text.
abbrev env : Env
env = record {
  get_page = λ id n. some (first ∷ []);
  encode_post = encode_post;
  encode_thread = λ t v. some (v.id ∷ []);
  encode_page = λ p. some (p.page ∷ []);
  page_start = 8 ∷ [];
  page_end = 9 ∷ [];
  notification = λ n. [];
  closing = λ id body. [];
  patching = λ id p. [];
  deflate = λ bytes. bytes;
  parse = λ s is_open. Node.text s;
}

abbrev feed : ThreadFeed
feed = Thread.new thread (1 ∷ []) (some (first ∷ [])) 50

-- A post's body is set, and a pulse patches it.
abbrev edited : ThreadFeed
edited = (Requests.handle env feed (Requests.Request.sets_body 0 1 (97 ∷ []))).0.0

edited-IsScheduled : Scheduled.IsScheduled edited
unfolding Thread.new Requests.handle
edited-IsScheduled = tt

pulsed : (Requests.handle env edited (Requests.Request.pulses (70 ∷ []))).1 ≡ none
unfolding Thread.new unfetched_pages Requests.handle HashMap.get HashMap.insert
pulsed = refl

next_page : 2 ≤ feed.thread_meta.val.page_count + 1
unfolding Thread.new
next_page = omega arith

handle-IsScheduled_example :
    Scheduled.IsScheduled (Requests.handle env edited (Requests.Request.pulses (70 ∷ []))).0.0
handle-IsScheduled_example =
    handle-IsScheduled env edited (Requests.Request.pulses (70 ∷ [])) edited-IsScheduled pulsed

abbrev reply : InsertPost
reply = record { id = 101; thread = 1; page = 2; opts = opts }

fetch-panics_example :
    panics (fetch env (run env feed (Requests.Request.inserts reply 2000 ∷ [])) (pos 1) 70).1
    ≡ false
fetch-panics_example =
    fetch-panics env thread (1 ∷ []) (some (first ∷ [])) 50
      (Requests.Request.inserts reply 2000 ∷ []) (pos 1) 70 (next_page, tt)

vacant : HashMap.get feed.pages 2 ≡ none
unfolding Thread.new unfetched_pages HashMap.get HashMap.insert
vacant = refl

below : feed.thread_meta.val.page_count ≤ 2
unfolding Thread.new
below = omega arith

insert_post_first_example :
    ((insert_post env feed reply 2000).0.0.writer ≡ feed.writer)
    × (fetch env (insert_post env feed reply 2000).0.0 (pos 2) 70
        ≡ done (insert_post env feed reply 2000).0.0 (disconnect 70 ∷ []))
insert_post_first_example = insert_post_first env feed reply 2000 70 vacant below

abbrev pending : Bodies
pending = (1, 97 ∷ []) ∷ []

abbrev first_cacher : MessageCacher Post Message
first_cacher = record { val = first; cached = none }

empty-Fits : (n : Node) → n ≡ Node.empty → Fits n
empty-Fits n e = subst Fits (sym e) tt

found :
    (b : Bool) (n : Node)
    → body_of (if b then some first_cacher else none) ≡ some n
    → n ≡ Node.empty
found true n e = sym (some_inj e)
found false n e = absurd (ground arith)

page-AllFit : AllFit page.items
unfolding HashMap.get
page-AllFit k n e = empty-Fits n (found (1 == k) n e)

process-replay_example :
    body_at (process env page pending).0.items 1
    ≡ replay_at (process env page pending).1 1 (body_at page.items 1)
process-replay_example = process-replay env page pending 1 page-AllFit (tt, tt)

pending_text : HashMap.get pending 1 ≡ some (97 ∷ [])
unfolding HashMap.get
pending_text = refl

page_post : HashMap.get page.items 1 ≡ some first_cacher
unfolding HashMap.get
page_post = refl

process-parse_example :
    (body_at (process env page pending).0.items 1 ≡ some (Node.text (97 ∷ [])))
    × (replay_at (process env page pending).1 1 (body_at page.items 1) ≡ some (Node.text (97 ∷ [])))
process-parse_example =
    process-parse env page pending 1 first_cacher (97 ∷ []) page-AllFit (tt, tt) page_post refl
      pending_text

-- Two bodies of a post, and one of another, around a pulse.
abbrev bodies : List Event
bodies =
    Event.persists ((1, Node.text (97 ∷ [])) ∷ (2, Node.newline) ∷ [])
    ∷ Event.pulses true
    ∷ Event.persists ((1, Node.empty) ∷ [])
    ∷ []

run-last_example :
    (Latest.post 1 (Latest.run start bodies)
      ≡ Latest.after 1 bodies (record { buffered = none; stored = none }))
    × ((Latest.fails bodies ≡ true)
        ⊎ (known (Latest.post 1 (Latest.run start bodies)) ≡ some Node.empty))
    × IsWaiting (Latest.run start bodies)
run-last_example = run-last bodies 1
