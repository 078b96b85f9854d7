-- ===== src/Client/State/Agent/Run.antt =====
-- Every request to the state agent keeps its index (client/src/state/agent.rs).
use shamichan.Prelude.{ℕ, List, [], ◌∷◌, Option, none, some}
use shamichan.Prelude.Eq.{ℕ_eq}
use shamichan.Client.State.Keys.{int_Eq, change_Eq}
use shamichan.Client.State.Requests.{Request}
use shamichan.Client.State.Agent.{Agent, trigger, flush_triggers}
use shamichan.Client.State.Agent.Requested.{unhook_all, scrolling, handle, handle_input, flushed}
use shamichan.Client.State.Agent.Indexed.{
  IsIndexed, AllIndexed, Indexed-register_post, Indexed-try_sync_feed,
}
use shamichan.Client.State.Agent.Navigated.{AllIndexed-set_location}
use shamichan.Client.State.Agent.Registered.{
  Indexed-register_thread, Indexed-register_threads, Indexed-register_page, Indexed-hook_all,
  Indexed-unhook_all, Indexed-patch_post_body, Indexed-close_post, Indexed-meta_in,
}

AllIndexed-handle :
    (a : Agent) (r : Request) (id : ℕ) → IsIndexed a.app → AllIndexed (handle a r id)
unfolding handle trigger
AllIndexed-handle a (Request.notify_change hs) id h = Indexed-hook_all a hs id h
AllIndexed-handle a (Request.change_notifications remove add) id h =
    Indexed-hook_all (unhook_all a remove id) add id (Indexed-unhook_all a remove id h)
AllIndexed-handle a (Request.navigate_to loc flags) id h = AllIndexed-set_location a loc flags h
AllIndexed-handle a (Request.fetch_feed loc) id h = Indexed-try_sync_feed a loc scrolling h
AllIndexed-handle a (Request.register_post p) id h = Indexed-register_post a.app p h
AllIndexed-handle a (Request.patch_post_body post patch) id h =
    Indexed-patch_post_body a post patch h
AllIndexed-handle a (Request.close_post post body) id h = Indexed-close_post a post body h
AllIndexed-handle a (Request.register_page posts) id h = Indexed-register_page a posts h
AllIndexed-handle a (Request.register_threads ts) id h = Indexed-register_threads a ts h
AllIndexed-handle a (Request.register_thread t) id h = Indexed-register_thread a t h
AllIndexed-handle a (Request.register_thread_meta t) id h = Indexed-meta_in a t a.feed_sync_state h
AllIndexed-handle a r id h = h

AllIndexed-flushed : (o : Option Agent) → AllIndexed o → AllIndexed (flushed o)
unfolding flush_triggers
AllIndexed-flushed none h = tt
AllIndexed-flushed (some a) h = h

AllIndexed-handle_input :
    (a : Agent) (r : Request) (id : ℕ) → IsIndexed a.app → AllIndexed (handle_input a r id)
unfolding handle_input
AllIndexed-handle_input a r id h = AllIndexed-flushed (handle a r id) (AllIndexed-handle a r id h)

-- Requests, one after the other, up to a panic.
abbrev pub requested : Agent → List (Request × ℕ) → Option Agent
requested a [] = some a
requested a ((r, id) ∷ rs) = elim (handle_input a r id) [ none ↦ none | some b ↦ requested b rs ]

and_on :
    (o : Option Agent) (rs : List (Request × ℕ))
    → ((b : Agent) → IsIndexed b.app → AllIndexed (requested b rs))
    → AllIndexed o
    → AllIndexed (elim o as (λ x. Option Agent) [ none ↦ none | some b ↦ requested b rs ])
and_on none rs go h = tt
and_on (some b) rs go h = go b h

-- Where each registered post stands under its ID, and in the index under its thread and its page,
-- this is so after any requests to the agent.
pub requested-AllIndexed :
    (a : Agent) (rs : List (Request × ℕ)) → IsIndexed a.app → AllIndexed (requested a rs)
requested-AllIndexed a [] h = h
requested-AllIndexed a ((r, id) ∷ rs) h =
    and_on (handle_input a r id) rs (λ b k. requested-AllIndexed b rs k)
      (AllIndexed-handle_input a r id h)
