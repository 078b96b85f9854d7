-- ===== src/Client/State/Requests.antt =====
-- What the state agent is asked for, and the changes that it notifies of
-- (client/src/state/agent.rs).
use shamichan.Prelude.{ℕ, List, Option, Bool}
use shamichan.PostBody.Node.{ℤ, Node, Patch}
use shamichan.Payloads.{Post, Thread, ThreadWithPosts}
use shamichan.Client.Location.{Location}

pub data Change : Type 0 where
  location key_pair options configs used_tags thread_list : Change
  thread post : ℕ → Change
  time_correction open_post_id : Change

-- The flags of a navigation: `PUSH_STATE`, `SET_STATE`, `SCROLL_TO_FOCUSED` and `NO_TRIGGER`.
pub record Flags : Type 0 where
  pub push_state : Bool
  pub set_state : Bool
  pub scroll_to_focused : Bool
  pub no_trigger : Bool

pub data Request : Type 0 where
  notify_change : List Change → Request
  -- to remove and to add
  change_notifications : List Change → List Change → Request
  fetch_feed : Location → Request
  navigate_to : Location → Flags → Request
  set_key_id : Option ℕ → Request
  set_mine : ℕ → Request
  set_open_post_id : Option ℕ → Request
  register_post : Post → Request
  register_page : List Post → Request
  register_thread_meta : Thread → Request
  register_thread : ThreadWithPosts → Request
  register_threads : List ThreadWithPosts → Request
  patch_post_body : ℕ → Patch → Request
  close_post : ℕ → Node → Request
  set_used_tags : List (List ℕ) → Request
  set_time_correction : ℤ → Request
  set_configs : ℕ → Request
