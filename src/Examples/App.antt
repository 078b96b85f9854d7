-- ===== src/Examples/App.antt =====
-- A client that navigates, connects, and edits its post.
use shamichan.Prelude.{
  ℕ, ◌≡◌, refl, ap, List, [], ◌∷◌, ◌++◌, none, some, Bool, true, false, if◌then◌else◌, ◌==◌, arith,
}
use shamichan.PostBody.Node.{pos, negsuc}
use shamichan.Payloads.{PubKeyStatus}
use shamichan.Server.Client.{MessageHandler, OpenPost, ConnState, AnyFeed}
use shamichan.Payloads.{Post, new_post}
use shamichan.Collections.HashMap
use shamichan.Collections.HashSet
use shamichan.Collections.SetMap
use shamichan.Collections.DoubleSetMap
use shamichan.PostBody.Node.{Node}
use shamichan.Client.State.Requests.{Change, Request}
use shamichan.Client.State.Agent as Store
use shamichan.Client.State.Agent.Requested as Requested
use shamichan.Client.State.Agent.Indexed.{IsIndexed, AllIndexed}
use shamichan.Client.State.Agent.Run.{requested, requested-AllIndexed}
use shamichan.Client.Location.{FeedId, Focus, Location, path, from_path}
use shamichan.Client.Location.RoundTrip.{is_pathname, is_hash, are_path_chars, from_path-path}
use shamichan.Client.State as App
use shamichan.Client.Connection as Connection
use shamichan.Client.Connection.Received.{Incoming}
use shamichan.Client.Connection.Events as Conn
use shamichan.Client.Connection.Events.{event, input}
use shamichan.Client.Connection.Events.Deferred.{kept, taken}
use shamichan.Client.Connection.Events.InOrder.{asked, taken-run}
use shamichan.Client.Posting.{State, Agent}
use shamichan.Client.Posting.Events as FormAgent
use shamichan.Client.Posting.Form as Form
use shamichan.Client.Posting.Mirrored.{Mirrored}
use shamichan.Client.Posting.Mirrored.Run.{run-Mirrored}
use shamichan.Client.Posting.Served.{Followed, typed, handle_rest-typed}
use shamichan.Examples.Client as Server

-- A browser that splits an address at the first sign.
unfoldable browser : List ℕ → List ℕ × List ℕ
browser [] = ([], [])
browser (c ∷ cs) = let rest = browser cs in if c == 35 then ([], c ∷ cs) else (c ∷ rest.0, rest.1)

browser_hash : (h : List ℕ) → is_hash h ≡ true → browser h ≡ ([], h)
unfolding browser
browser_hash [] e = refl
browser_hash (c ∷ []) e = absurd (ground arith)
browser_hash (c ∷ d ∷ h) e = let f : (c == 35) ≡ true = ground arith in rw f refl

browser_onto :
    (c : ℕ) (cs p h : List ℕ)
    → (c == 35) ≡ false
    → browser cs ≡ (p, h)
    → browser (c ∷ cs) ≡ (c ∷ p, h)
unfolding browser
browser_onto c cs p h f e = rw f (ap (λ r. (c ∷ r.0, r.1)) e)

browser_chars :
    (p h : List ℕ) → are_path_chars p ≡ true → is_hash h ≡ true → browser (p ++ h) ≡ (p, h)
browser_chars [] h e k = browser_hash h k
browser_chars (c ∷ p) h e k =
    browser_onto c (p ++ h) p h (ground arith) (browser_chars p h (ground arith) k)

browser_path : (p h : List ℕ) → is_pathname p ≡ true → is_hash h ≡ true → browser (p ++ h) ≡ (p, h)
browser_path [] h e k = absurd (ground arith)
browser_path (c ∷ []) h e k = browser_chars (c ∷ []) h (ground arith) k
browser_path (c ∷ d ∷ p) h e k = browser_chars (c ∷ d ∷ p) h (ground arith) k

abbrev here : Location
here = record { feed = FeedId.thread 12 (negsuc 0); focus = some (Focus.post 30) }

from_path-path_example : from_path (browser (path here)).0 (browser (path here)).1 ≡ here
from_path-path_example =
    from_path-path browser browser_path here (omega arith, omega arith) (omega arith)

abbrev net : Connection.Env
net = record {
  on_line = true;
  hidden = false;
  open_socket = some 1;
  accepts = λ m. true;
  key_pair = record { private_key = []; public_key = []; id = none };
  now = 1000;
}

abbrev greeting : List Incoming
greeting = Incoming.handshake (record { id = 5; status = PubKeyStatus.accepted }) ∷ []

-- The first byte of a message tells whether it is to be deferred.
abbrev is_deferrable : List ℕ → Bool
is_deferrable [] = false
is_deferrable (c ∷ m) = c == 1

abbrev turns : List Conn.Step
turns =
    input net (Conn.message false (1 ∷ 7 ∷ []))
    ∷ event net Conn.opened
    ∷ input net (Conn.message true (9 ∷ []))
    ∷ event net (Conn.receive greeting)
    ∷ input net (Conn.message false (1 ∷ 8 ∷ []))
    ∷ event net Conn.went_offline
    ∷ input net (Conn.message false (1 ∷ 9 ∷ []))
    ∷ []

taken-run_example : kept is_deferrable (taken (Conn.run (Conn.create net) turns)) ≡ asked turns
unfolding Conn.create Conn.step Conn.update Conn.handle_input
taken-run_example = taken-run is_deferrable net turns (
  ((λ m. refl), refl),
  (
    tt,
    (
      ((λ m. refl), refl),
      (((λ m. refl), (1, refl)), (((λ m. refl), refl), (tt, (((λ m. refl), refl), tt)))),
    ),
  ),
)

abbrev app : App.State
app = record {
  location = here;
  configs = 0;
  threads = [];
  posts = [];
  posts_by_thread_page = record { by_key = []; by_value = [] };
  loaded_pages = [];
  key_pair = record { private_key = []; public_key = []; id = none };
  key_id = none;
  options = 0;
  open_post_id = some 31;
  mine = [];
  new_post_opts = record { sage = false; name = [] };
  used_tags = [];
  time_correction = pos 0;
}

-- A draft that is typed, allocated, changed and closed.
abbrev session : List FormAgent.Step
session =
    FormAgent.join 4
    ∷ FormAgent.input app (FormAgent.open_draft 12) 4
    ∷ FormAgent.input app (FormAgent.commit_text (97 ∷ [])) 4
    ∷ FormAgent.event app FormAgent.open_post_id_change
    ∷ FormAgent.input app (FormAgent.commit_text (97 ∷ 98 ∷ [])) 4
    ∷ FormAgent.input app (FormAgent.commit_text (98 ∷ [])) 4
    ∷ FormAgent.input app FormAgent.close 4
    ∷ []

run-Mirrored_example : Mirrored (FormAgent.run FormAgent.initial session)
run-Mirrored_example =
    run-Mirrored session (tt, (tt, (omega arith, (tt, (omega arith, (omega arith, (tt, tt)))))))

abbrev writer : Agent
writer = record FormAgent.initial { state = State.allocated 31; post_body = 97 ∷ 98 ∷ [] }

abbrev post : OpenPost
post = record { thread = 3; id = 31; page = 0; body = 97 ∷ 98 ∷ []; feed = 7 }

abbrev handler : MessageHandler
handler = record {
  conn_state = ConnState.synchronized 3 (AnyFeed.thread 7);
  open_post = some post;
  pub_key = record { priv_id = 10; pub_id = 20 };
  message = none;
  sent = [];
}

abbrev texts : List (List ℕ)
texts = (97 ∷ 98 ∷ 99 ∷ []) ∷ (97 ∷ 98 ∷ []) ∷ (99 ∷ 98 ∷ []) ∷ []

handle_rest-typed_example :
    Followed app Server.env 3 (AnyFeed.thread 7) post handler writer (typed app writer texts)
handle_rest-typed_example =
    handle_rest-typed app Server.env 3 (AnyFeed.thread 7) post texts handler writer refl refl refl
      (omega arith) (omega arith, (omega arith, (omega arith, tt)))

abbrev keeper : Store.Agent
keeper = record {
  app = app;
  hooks = record { by_key = []; by_value = [] };
  queued_triggers = [];
  render_task = none;
  feed_sync_state = Store.not_requested;
  notified = [];
  sent = [];
  scrolled = [];
  history = [];
}

abbrev first_post : Post
first_post =
    new_post 30 12 0 1000
      (record { sage = false; post_opts = record { name = none; trip = none; flag = none } })

-- A view that is told of a thread in which a post comes and is closed.
abbrev asks : List (Request × ℕ)
asks =
    (Request.notify_change (Change.thread 12 ∷ []), 4)
    ∷ (Request.register_post first_post, 5)
    ∷ (Request.fetch_feed here, 4)
    ∷ (Request.close_post 30 (Node.text (97 ∷ [])), 5)
    ∷ []

asks_notified : elim (requested keeper asks) [ none ↦ [] | some a ↦ a.notified ] ≡ 4 ∷ []
unfolding Requested.handle_input HashMap.get HashMap.insert DoubleSetMap.insert SetMap.insert
    HashSet.insert
asks_notified = refl

keeper-IsIndexed : IsIndexed app
unfolding HashMap.get
keeper-IsIndexed = record {
  has_id = λ id p e. absurd (ground arith);
  has_place = λ id p e. absurd (ground arith);
}

requested-AllIndexed_example : AllIndexed (requested keeper asks)
requested-AllIndexed_example = requested-AllIndexed keeper asks keeper-IsIndexed

-- A line that is selected in post 30 is quoted behind "a".
quoted :
    Form.quote (record { value = 97 ∷ []; selection_end = 1 }) 30 (120 ∷ [])
    ≡ some (97 ∷ 10 ∷ 62 ∷ 62 ∷ 51 ∷ 48 ∷ 10 ∷ 62 ∷ 120 ∷ 10 ∷ [], 10)
unfolding Form.quote
quoted = refl

-- A position behind the text is a panic.
quoted_beyond : Form.quote (record { value = []; selection_end = 1 }) 30 [] ≡ none
unfolding Form.quote
quoted_beyond = refl
