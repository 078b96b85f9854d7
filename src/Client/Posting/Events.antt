-- ===== src/Client/Posting/Events.antt =====
-- The events and the inputs of the post form's agent (client/src/post/posting.rs: `update`,
-- `connected`, `disconnected` and `handle_input`). The elements of the page enter `quote_post` only
-- through the tests on them, which are arguments.
use shamichan.Prelude.{
  ℕ, List, [], ◌∷◌, ◌++◌, Option, none, some, Bool, true, false, if◌then◌else◌, ◌&&◌, ◌||◌,
}
use shamichan.Prelude.Eq.{ℕ_eq}
use shamichan.Collections.HashMap
use shamichan.Collections.HashMap.{HashMap}
use shamichan.Client.State as App
use shamichan.Client.Connection as Connection
use shamichan.Client.Posting.{commit_text as commit}
use shamichan.Client.Posting.{
  State, Subscription, Sent, Response, Agent, state_eq, send, send_current_state, try_alloc,
  commit_pending, set_state, reset,
}

-- What the page tells of the last selection against the post that is quoted.
pub record SelectionTests : Type 0 where
  -- `in_middle` of its start and its end
  pub start_in_middle : Bool
  pub end_in_middle : Bool
  -- its start is the post, and the article around its end is the one after the post
  pub starts_at_post : Bool
  pub ends_before_next : Bool

pub data Event : Type 0 where
  conn_state_update : Connection.State → Event
  -- the text, where the selection is one to be stored
  selection_change : Option (List ℕ) → Event
  open_post_id_change : Event

pub data Request : Type 0 where
  quote_post : ℕ → SelectionTests → Request
  close sub_view_updates : Request
  commit_text : List ℕ → Request
  open_draft : ℕ → Request

abbrev pub respond_views : HashMap ℕ Subscription → Response → Agent → Agent
respond_views [] r a = a
respond_views ((id, Subscription.view_updates) ∷ subs) r a =
    respond_views subs r (record a { responses = a.responses ++ (id, r) ∷ [] })
respond_views ((id, Subscription.state_only) ∷ subs) r a = respond_views subs r a

-- `send_to_views`
unfoldable pub send_to_views : Agent → Response → Agent
send_to_views a r = respond_views a.subscribers r a

abbrev pub selected : Option (List ℕ) → SelectionTests → List ℕ
selected none t = []
selected (some text) t =
    if t.start_in_middle || (t.starts_at_post && (t.end_in_middle || t.ends_before_next))
    then text
    else []

-- The states in which `quote_post` stops.
abbrev pub is_allocating : State → Bool
is_allocating (State.allocated post) = true
is_allocating (State.allocating thread) = true
is_allocating (State.need_captcha thread) = true
is_allocating s = false

module _ (app : App.State) where
  -- `quote_post`
  unfoldable pub quote : Agent → ℕ → SelectionTests → Agent
  unfolding try_alloc send_to_views
  quote a post t =
      let a' = try_alloc app a in
      if is_allocating a'.state
      then a'
      else send_to_views a' (Response.render_quoted post (selected a'.last_selection t))

  abbrev pub connected_in : Agent → State → Connection.State → Agent
  connected_in a (State.draft thread) Connection.handshake_complete = commit_pending app a
  connected_in a (State.allocating thread) cs = set_state app a (State.draft thread)
  connected_in a (State.need_captcha thread) cs = set_state app a (State.draft thread)
  connected_in a s cs = a

  abbrev pub conn_changed : Agent → Connection.State → Agent
  conn_changed a Connection.critical_error = set_state app a State.critical_error
  conn_changed a cs = connected_in a a.state cs

  abbrev pub claim : Agent → Option ℕ → State → Agent
  claim a none s = a
  claim a (some id) State.ready = set_state app a (State.allocated id)
  claim a (some id) (State.draft thread) = set_state app a (State.allocated id)
  claim a (some id) (State.allocating thread) = set_state app a (State.allocated id)
  claim a (some id) s = a

  -- `update`
  unfoldable pub update : Agent → Event → Agent
  unfolding set_state commit_pending
  update a (conn_state_update cs) = conn_changed (record a { conn_state = cs }) cs
  update a open_post_id_change = claim a app.open_post_id a.state
  update a (selection_change none) = a
  update a (selection_change (some text)) = record a { last_selection = some text }

  abbrev pub close_in : Agent → State → Agent
  close_in a (State.draft thread) = reset app a
  close_in a (State.need_captcha thread) = reset app a
  close_in a (State.allocated post) = reset app (send a Sent.close_post)
  close_in a s = a

  -- `handle_input`, with the ID of the handler
  unfoldable pub handle_input : Agent → Request → ℕ → Agent
  unfolding quote commit set_state reset
  handle_input a (quote_post post t) h = quote a post t
  handle_input a sub_view_updates h = record a {
    subscribers = HashMap.insert a.subscribers h Subscription.view_updates;
  }
  handle_input a (Request.commit_text text) h = commit app a text
  handle_input a (open_draft thread) h =
      if state_eq a.state State.ready then set_state app a (State.draft thread) else a
  handle_input a close h = close_in a a.state

-- `connected`
unfoldable pub connected : Agent → ℕ → Agent
unfolding send_current_state
connected a id =
    send_current_state
      (record a { subscribers = HashMap.insert a.subscribers id Subscription.state_only }) id

-- `disconnected`
unfoldable pub disconnected : Agent → ℕ → Agent
disconnected a id = record a { subscribers = HashMap.remove a.subscribers id }

-- `create`
abbrev pub initial : Agent
initial = record {
  state = State.ready;
  subscribers = [];
  conn_state = Connection.loading;
  last_selection = none;
  post_body = [];
  sent = [];
  responses = [];
}

-- One turn of the agent, with the state of the app that it meets.
pub data Step : Type 0 where
  event : App.State → Event → Step
  input : App.State → Request → ℕ → Step
  join leave : ℕ → Step

unfoldable pub step : Agent → Step → Agent
unfolding update handle_input connected disconnected
step a (event app e) = update app a e
step a (input app r h) = handle_input app a r h
step a (join id) = connected a id
step a (leave id) = disconnected a id

abbrev pub run : Agent → List Step → Agent
run a [] = a
run a (s ∷ ss) = run (step a s) ss
