-- ===== src/Feeds/Index.antt =====
-- `IndexFeed` of server/src/feeds/index/mod.rs, with `Threads` of server/src/feeds/index/threads.rs.
-- The clock, the snapshot of the clients and what is serialized are arguments of the handlers.
pub mod Pulse
pub mod Applied
pub mod Scheduled
use shamichan.Prelude.{
  ℕ, zero, suc, ◌+◌, ◌%◌, ◌^◌, List, [], ◌∷◌, ◌++◌, map, Option, none, some, Bool, true, false,
  if◌then◌else◌, ltb, ◌==◌, ◌&&◌, not,
}
use shamichan.Prelude.Eq.{ℕ_eq}
use shamichan.Collections.HashMap
use shamichan.Collections.HashMap.{HashMap}
use shamichan.Codec.MessageType.{MessageType}
use shamichan.Codec.Encoder.{Encoder, finish}
use shamichan.Codec.Encoder
use shamichan.PostBody.Node.{Node}
use shamichan.Payloads.{Post, Thread, ThreadWithPosts, PostCreationOpts, new_op, new_thread}
use shamichan.Server.MessageCacher.{MessageCacher}
use shamichan.Server.MessageCacher
use shamichan.Feeds.Changes.{
  Change, insert_post, set_body, ChangeSet, Sent, send_message, send_batch, pulse_later,
}
use shamichan.Feeds.Bundle.{Message, Items, Bundle, values, get_message, deref_mut}
use shamichan.Feeds.Bundle
use shamichan.Feeds.Writer.{Payload, or_new}

-- `Threads`: the bundle of the threads, and the cached set of used tags.
pub record Threads : Type 0 where
  pub bundle : Bundle ThreadWithPosts
  pub used_tags : Option Message

-- `clients` are the addresses in the snapshot.
pub record IndexFeed : Type 0 where
  pub pending_pulse : Bool
  pub clients : List ℕ
  pub threads : Threads
  pub changes : List ChangeSet
  pub enc : Option Encoder
  pub deferred_fetches : List ℕ

-- `DerefMut` of `Threads`
abbrev pub mutate : (Items ThreadWithPosts → Items ThreadWithPosts) → Threads → Threads
mutate f t = record { bundle = deref_mut f t.bundle; used_tags = none }

abbrev pub is_empty : {A : Type 0} → List A → Bool
is_empty [] = true
is_empty (x ∷ xs) = false

-- The order of strings.
abbrev pub str_le : List ℕ → List ℕ → Bool
str_le [] t = true
str_le (c ∷ s) [] = false
str_le (c ∷ s) (d ∷ t) = if ltb c d then true else (c == d) && str_le s t

abbrev pub str_eq : List ℕ → List ℕ → Bool
str_eq s t = str_le s t && str_le t s

-- A set of strings in their order: `collect::<HashSet<_>>`, `sort_unstable`.
abbrev pub insert_tag : List ℕ → List (List ℕ) → List (List ℕ)
insert_tag s [] = s ∷ []
insert_tag s (t ∷ ts) =
    if str_eq s t then t ∷ ts else if str_le s t then s ∷ t ∷ ts else t ∷ insert_tag s ts

abbrev pub add_tags : List (List ℕ) → List (List ℕ) → List (List ℕ)
add_tags [] ts = ts
add_tags (s ∷ ss) ts = insert_tag s (add_tags ss ts)

abbrev pub all_tags : List (ℕ × ThreadWithPosts) → List (List ℕ)
all_tags [] = []
all_tags ((k, t) ∷ m) = add_tags t.thread.tags (all_tags m)

-- One change, on the thread of its set.
abbrev pub close : Bool → Node → Post → Post
close close_post body p = record p {
  body = body;
  is_open = if close_post then false else p.is_open;
}

abbrev pub set_post : HashMap ℕ Post → ℕ → (Post → Post) → Option Post → HashMap ℕ Post
set_post posts id f none = posts
set_post posts id f (some p) = HashMap.insert posts id (f p)

unfoldable pub apply_change : Change → ThreadWithPosts → ThreadWithPosts
apply_change (insert_post p) t = record {
  thread = record t.thread { post_count = (t.thread.post_count + 1) % 2 ^ 64 };
  posts = HashMap.insert t.posts p.id p;
}
apply_change (set_body id body close_post) t = record t {
  posts = set_post t.posts id (close close_post body) (HashMap.get t.posts id);
}

abbrev pub ThreadCacher : Type 0
ThreadCacher = MessageCacher ThreadWithPosts Message

-- `Threads::new` and `IndexFeed::new`
unfoldable pub new : Items ThreadWithPosts → IndexFeed
unfolding Bundle.new
new threads = record {
  pending_pulse = false;
  clients = [];
  threads = record { bundle = Bundle.new threads; used_tags = none };
  changes = [];
  enc = none;
  deferred_fetches = [];
}

-- `IndexFeed::schedule_pulse`
unfoldable pub schedule_pulse : IndexFeed → IndexFeed × List Sent
schedule_pulse f =
    if f.pending_pulse then (f, []) else (record f { pending_pulse = true }, pulse_later ∷ [])

-- `Handler<WakeUp>`
unfoldable pub wake_up : IndexFeed → IndexFeed × List Sent
unfolding schedule_pulse
wake_up f = schedule_pulse f

-- `Handler<ChangeSet>`
unfoldable pub change_set : IndexFeed → ChangeSet → IndexFeed × List Sent
unfolding schedule_pulse
change_set f cs =
    let (f', sent) = schedule_pulse f in (record f' { changes = f'.changes ++ cs ∷ [] }, sent)

abbrev pub fetch : IndexFeed → ℕ → Option Message → IndexFeed × List Sent
fetch f client (some msg) = (f, send_message client msg ∷ [])
fetch f client none =
    let (f', sent) = schedule_pulse f in
    (record f' { deferred_fetches = f'.deferred_fetches ++ client ∷ [] }, sent)

-- `Handler<FetchFeedData>`
unfoldable pub fetch_feed_data : IndexFeed → ℕ → IndexFeed × List Sent
unfolding schedule_pulse Bundle.get_cached_message
fetch_feed_data f client = fetch f client (Bundle.get_cached_message f.threads.bundle)

-- `Handler<InsertThread>`; `payload` is what the serializer writes of the new thread.
unfoldable pub insert_thread :
    IndexFeed
    → ℕ
    → ℕ
    → List ℕ
    → List (List ℕ)
    → PostCreationOpts
    → (ThreadWithPosts → Payload)
    → IndexFeed × List Sent
unfolding schedule_pulse deref_mut
insert_thread f now id subject tags opts payload =
    let (f', sent) = schedule_pulse f in
    let thread : ThreadWithPosts = record {
      thread = new_thread id now subject tags;
      posts = HashMap.insert [] id (new_op id now opts);
    } in
    (
      record f' {
        enc =
            some (Encoder.write_message (or_new f'.enc) MessageType.insert_thread (payload thread));
        threads =
            mutate (λ m. HashMap.insert m id (record { val = thread; cached = none })) f'.threads;
      },
      sent,
    )

abbrev pub tags_sent : IndexFeed → ℕ → Option Message → IndexFeed × List Sent
tags_sent f client none = (f, [])
tags_sent f client (some msg) =
    (record f { threads = record f.threads { used_tags = some msg } }, send_message client msg ∷ [])

abbrev pub tags_of :
    IndexFeed → ℕ → (List (List ℕ) → Option Message) → Option Message → IndexFeed × List Sent
tags_of f client encode (some msg) = (f, send_message client msg ∷ [])
tags_of f client encode none =
    tags_sent f client (encode (all_tags (values f.threads.bundle.items)))

-- `Handler<UsedTags>` with `Threads::used_tags`
unfoldable pub used_tags : IndexFeed → ℕ → (List (List ℕ) → Option Message) → IndexFeed × List Sent
used_tags f client encode = tags_of f client encode f.threads.used_tags
