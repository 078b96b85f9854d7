-- ===== src/Client/Posting.antt =====
-- The agent of the post form (client/src/post/posting.rs). `sent` and `responses` record what it
-- sends to the server and answers to its subscribers, in order.
pub mod Events
pub mod Change
pub mod Mirrored
pub mod Served
pub mod Accepted
pub mod Form
use shamichan.Prelude.{
  ℕ, zero, suc, ◌+◌, ◌-◌, List, [], ◌∷◌, ◌++◌, map, Option, none, some, Bool, true, false,
  if◌then◌else◌, ◌==◌, ◌&&◌, not, length, get_elem?, take, drop,
}
use shamichan.Prelude.Eq.{ℕ_eq}
use shamichan.Payloads.{PostCreationReq}
use shamichan.PostBody.Text.{TextPatch}
use shamichan.PostBody.Text
use shamichan.Feeds.Index.{is_empty}
use shamichan.Collections.HashMap.{HashMap}
use shamichan.Client.Location.{is_thread, text_eq}
use shamichan.Client.State as App
use shamichan.Client.Connection as Connection

pub data State : Type 0 where
  ready : State
  -- with the thread
  draft allocating : ℕ → State
  -- with the post
  allocated : ℕ → State
  -- with the thread
  need_captcha : ℕ → State
  critical_error : State

pub data Subscription : Type 0 where
  state_only view_updates : Subscription

-- What the agent sends over the connection.
pub data Sent : Type 0 where
  insert_post : PostCreationReq → Sent
  append : ℕ → Sent
  backspace : Sent
  patch_post_body : TextPatch → Sent
  close_post : Sent

pub data Response : Type 0 where
  state : State → Response
  -- the ID and the text of `PostQuoteReq`
  render_quoted : ℕ → List ℕ → Response

pub record Agent : Type 0 where
  pub state : State
  pub subscribers : HashMap ℕ Subscription
  pub conn_state : Connection.State
  -- the text that was last selected
  pub last_selection : Option (List ℕ)
  pub post_body : List ℕ
  pub sent : List Sent
  pub responses : List (ℕ × Response)

abbrev pub state_eq : State → State → Bool
state_eq State.ready State.ready = true
state_eq (State.draft a) (State.draft b) = a == b
state_eq (State.allocating a) (State.allocating b) = a == b
state_eq (State.allocated a) (State.allocated b) = a == b
state_eq (State.need_captcha a) (State.need_captcha b) = a == b
state_eq State.critical_error State.critical_error = true
state_eq s t = false

abbrev pub is_allocated : State → Bool
is_allocated (State.allocated post) = true
is_allocated s = false

abbrev pub send : Agent → Sent → Agent
send a m = record a { sent = a.sent ++ m ∷ [] }

-- `send_current_state`
unfoldable pub send_current_state : Agent → ℕ → Agent
send_current_state a subscriber = record a {
  responses = a.responses ++ (subscriber, Response.state a.state) ∷ [];
}

abbrev pub send_each : HashMap ℕ Subscription → Agent → Agent
send_each [] a = a
send_each ((id, s) ∷ subs) a = send_each subs (send_current_state a id)

-- `set_state`, where `commit` is what it does with pending text once a post is allocated.
unfoldable pub set_state_by : (Agent → Agent) → Agent → State → Agent
unfolding send_current_state
set_state_by commit a new =
    if state_eq a.state new
    then a
    else let a' = record a { state = new } in
      let a'' = if is_allocated new then commit a' else a' in send_each a''.subscribers a''

-- A text without its last character
abbrev pub init : List ℕ → List ℕ
init b = take (length b - 1) b

abbrev pub last : List ℕ → Option ℕ
last b = get_elem? b (length b - 1)

-- The message for a text in which `old` is changed, where it differs from it.
abbrev pub by_append : Option ℕ → List ℕ → List ℕ → Sent
by_append (some c) old text = Sent.append c
by_append none old text = Sent.patch_post_body (Text.new old text)

unfoldable pub change : List ℕ → List ℕ → Sent
change old text =
    if length text == length old + 1 && text_eq (init text) old
    then by_append (last text) old text
    else if length old == length text + 1 && text_eq (init old) text
    then Sent.backspace
    else Sent.patch_post_body (Text.new old text)

module _ (app : App.State) where
  abbrev pub creation : ℕ → PostCreationReq
  creation thread = record {
    sage = app.new_post_opts.sage;
    thread = thread;
    name = app.new_post_opts.name;
  }

  abbrev pub alloc_in : Agent → State → Agent
  alloc_in a (State.draft thread) =
      if is_thread app.location
      then set_state_by (λ b. b) (send a (Sent.insert_post (creation thread)))
          (State.allocating thread)
      else a
  alloc_in a s = a

  -- `try_alloc`. The state that it sets is not an allocated one, so nothing is committed.
  unfoldable pub try_alloc : Agent → Agent
  unfolding set_state_by
  try_alloc a = alloc_in a a.state

  abbrev pub commit_in : Agent → List ℕ → Agent
  commit_in a text =
      if not (is_allocated a.state)
      then record a { post_body = text }
      else if text_eq text a.post_body
      then a
      else record (send a (change a.post_body text)) { post_body = text }

  -- `commit_text`
  unfoldable pub commit_text : Agent → List ℕ → Agent
  unfolding try_alloc change
  commit_text a text =
      if is_empty text && is_empty a.post_body then a else commit_in (try_alloc a) text

  -- `commit_pending`
  unfoldable pub commit_pending : Agent → Agent
  unfolding commit_text
  commit_pending a =
      if is_empty a.post_body then a else commit_text (record a { post_body = [] }) a.post_body

  -- `set_state`
  unfoldable pub set_state : Agent → State → Agent
  unfolding set_state_by commit_pending
  set_state a new = set_state_by commit_pending a new

  -- `reset`
  unfoldable pub reset : Agent → Agent
  unfolding set_state
  reset a = set_state (record a { post_body = [] }) State.ready
