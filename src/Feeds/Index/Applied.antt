-- ===== src/Feeds/Index/Applied.antt =====
-- A pulse applies the buffered changes to the threads (server/src/feeds/index/mod.rs).
use shamichan.Prelude.{
  ℕ, ◌≡◌, refl, ap, ap₂, sym, ◌∙◌, subst, fun_ext, List, [], ◌∷◌, ◌++◌, Option, none, some, Bool,
  true, false, if◌then◌else◌, ◌==◌, arith, Bool-cases, inl, inr, append-nil, append_assoc, eqb→eq,
}
use shamichan.Prelude.Eq.{ℕ_eq}
use shamichan.Collections.HashMap
use shamichan.Codec.MessageType.{MessageType}
use shamichan.Payloads.{ThreadWithPosts}
use shamichan.Server.MessageCacher
use shamichan.Feeds.Changes.{Change, ChangeSet, Sent}
use shamichan.Feeds.Bundle.{Message, Items, Bundle, values}
use shamichan.Feeds.Bundle.Fresh.{IsFresh, GivesAll, encode_all, get_message-GivesAll}
use shamichan.Feeds.Index.{IndexFeed, Threads, ThreadCacher, apply_change}
use shamichan.Feeds.Index.Pulse.{
  apply_changes, apply_set, apply_sets, Loop, pulse, process, send_deferred, deferred,
}

abbrev pub change_thread : List Change → ThreadWithPosts → ThreadWithPosts
change_thread [] t = t
change_thread (c ∷ cs) t = change_thread cs (apply_change c t)

-- What change sets make of the thread of an identifier: those of other threads pass it by.
abbrev pub change_by : ℕ → List ChangeSet → ThreadWithPosts → ThreadWithPosts
change_by j [] t = t
change_by j (cs ∷ rest) t =
    change_by j rest (if cs.source_feed == j then change_thread cs.changes t else t)

abbrev pub if_there :
    (ThreadWithPosts → ThreadWithPosts) → Option ThreadWithPosts → Option ThreadWithPosts
if_there f none = none
if_there f (some t) = some (f t)

abbrev pub is_there : Option ThreadWithPosts → Bool
is_there none = false
is_there (some t) = true

-- The change sets whose thread is not there.
abbrev pub unknown : (ℕ → Bool) → List ChangeSet → List ChangeSet
unknown known [] = []
unknown known (cs ∷ rest) =
    if known cs.source_feed then unknown known rest else cs ∷ unknown known rest

abbrev pub thread_of : Threads → ℕ → Option ThreadWithPosts
thread_of t j = HashMap.get (values t.bundle.items) j

abbrev val_of : Option ThreadCacher → Option ThreadWithPosts
val_of none = none
val_of (some c) = some c.val

get-values :
    (m : Items ThreadWithPosts) (j : ℕ) → HashMap.get (values m) j ≡ val_of (HashMap.get m j)
unfolding HashMap.get
get-values [] j = refl
get-values ((k, c) ∷ m) j = ground (arith, get-values m j)

if_there-if_there :
    (f g : ThreadWithPosts → ThreadWithPosts) (o : Option ThreadWithPosts)
    → if_there f (if_there g o) ≡ if_there (λ t. f (g t)) o
if_there-if_there f g none = refl
if_there-if_there f g (some t) = refl

pub is_there-if_there :
    (f : ThreadWithPosts → ThreadWithPosts) (o : Option ThreadWithPosts)
    → is_there (if_there f o) ≡ is_there o
is_there-if_there f none = refl
is_there-if_there f (some t) = refl

if_there_same : (o : Option ThreadWithPosts) → o ≡ if_there (λ t. t) o
if_there_same none = refl
if_there_same (some t) = refl

none-if_there :
    (f : ThreadWithPosts → ThreadWithPosts) (o : Option ThreadWithPosts)
    → o ≡ none
    → o ≡ if_there f o
none-if_there f none e = refl
none-if_there f (some t) e = absurd (ground arith)

-- A missing thread is changed by none of its change sets.
missing_thread :
    (m : Items ThreadWithPosts) (k j : ℕ) (f : ThreadWithPosts → ThreadWithPosts)
    → HashMap.get m k ≡ none
    → HashMap.get (values m) j
      ≡ if_there (λ t. if k == j then f t else t) (HashMap.get (values m) j)
missing_thread m k j f e = elim (Bool-cases (k == j)) [
  | inl same ↦ none-if_there _ (HashMap.get (values m) j) (
      subst (λ i. HashMap.get (values m) i ≡ none) (eqb→eq k j same) (get-values m k ∙ ap val_of e))
  | inr other ↦ rw other (if_there_same (HashMap.get (values m) j))
]

-- A thread that is replaced by what `f` makes of it.
changed_thread :
    (m : Items ThreadWithPosts) (k j : ℕ) (f : ThreadWithPosts → ThreadWithPosts)
    (t t' : ThreadCacher)
    → HashMap.get m k ≡ some t
    → t'.val ≡ f t.val
    → HashMap.get (values (HashMap.insert m k t')) j
      ≡ if_there (λ t. if k == j then f t else t) (HashMap.get (values m) j)
changed_thread m k j f t t' e v =
    get-values (HashMap.insert m k t') j
    ∙ ap val_of (HashMap.get-insert m k j t')
    ∙ elim (Bool-cases (k == j)) [
      | inl same ↦ rw same (
          ap some v
          ∙ ap (if_there f) (
              sym (
                subst (λ i. HashMap.get (values m) i ≡ some t.val) (eqb→eq k j same)
                  (get-values m k ∙ ap val_of e))))
      | inr other ↦ rw other (sym (get-values m j) ∙ if_there_same (HashMap.get (values m) j))
    ]

module _ (encode : MessageType → ThreadWithPosts → Option Message) where
  apply_changes-val :
      (cs : List Change) (t : ThreadCacher)
      → (apply_changes encode cs t).val ≡ change_thread cs t.val
  unfolding MessageCacher.deref_mut
  apply_changes-val [] t = refl
  apply_changes-val (c ∷ cs) t =
      apply_changes-val cs (MessageCacher.deref_mut encode (apply_change c) t)

  apply_set-thread :
      (to_clients : Bool) (cs : ChangeSet) (l : Loop encode) (o : Option ThreadCacher) (j : ℕ)
      → HashMap.get l.threads.bundle.items cs.source_feed ≡ o
      → thread_of (apply_set encode to_clients cs l o).threads j
        ≡ if_there
            (λ t. if cs.source_feed == j then change_thread cs.changes t else t)
            (thread_of l.threads j)
  unfolding apply_sets
  apply_set-thread tc cs l none j e =
      missing_thread l.threads.bundle.items cs.source_feed j (change_thread cs.changes) e
  apply_set-thread tc cs l (some t) j e =
      changed_thread l.threads.bundle.items cs.source_feed j (change_thread cs.changes) t
        (apply_changes encode cs.changes t) e (apply_changes-val cs.changes t)

  apply_sets-thread :
      (to_clients : Bool) (sets : List ChangeSet) (l : Loop encode) (j : ℕ)
      → thread_of (apply_sets encode to_clients sets l).threads j
        ≡ if_there (change_by j sets) (thread_of l.threads j)
  unfolding apply_sets
  apply_sets-thread tc [] l j = if_there_same (thread_of l.threads j)
  apply_sets-thread tc (cs ∷ rest) l j =
      let o = HashMap.get l.threads.bundle.items cs.source_feed in
      apply_sets-thread tc rest (apply_set encode tc cs l o) j
      ∙ ap (if_there (change_by j rest)) (apply_set-thread tc cs l o j refl)
      ∙ if_there-if_there _ _ (thread_of l.threads j)

  -- The threads that are there.
  abbrev pub known_in : Threads → ℕ → Bool
  known_in t k = is_there (thread_of t k)

  apply_set-known :
      (to_clients : Bool) (cs : ChangeSet) (l : Loop encode)
      → let o = HashMap.get l.threads.bundle.items cs.source_feed in
        known_in (apply_set encode to_clients cs l o).threads ≡ known_in l.threads
  apply_set-known tc cs l = fun_ext λ k.
      ap is_there (apply_set-thread tc cs l _ k refl) ∙ is_there-if_there _ (thread_of l.threads k)

  apply_set-changes :
      (to_clients : Bool) (cs : ChangeSet) (l : Loop encode) (o : Option ThreadCacher)
      → HashMap.get l.threads.bundle.items cs.source_feed ≡ o
      → (apply_set encode to_clients cs l o).changes
        ≡ l.changes ++ unknown (known_in l.threads) (cs ∷ [])
  apply_set-changes tc cs l none e =
      ap (λ b. l.changes ++ (if b then [] else cs ∷ []))
        (sym (ap is_there (get-values l.threads.bundle.items cs.source_feed ∙ ap val_of e)))
  apply_set-changes tc cs l (some t) e =
      sym (append-nil l.changes)
      ∙ ap (λ b. l.changes ++ (if b then [] else cs ∷ []))
          (sym (ap is_there (get-values l.threads.bundle.items cs.source_feed ∙ ap val_of e)))

  delay_first :
      (xs : List ChangeSet) (cs : ChangeSet) (rest : List ChangeSet) (b : Bool)
      → (xs ++ (if b then [] else cs ∷ [])) ++ rest ≡ xs ++ (if b then rest else cs ∷ rest)
  delay_first xs cs rest true = ap (λ l. l ++ rest) (append-nil xs)
  delay_first xs cs rest false = append_assoc xs (cs ∷ []) rest

  apply_sets-changes :
      (to_clients : Bool) (sets : List ChangeSet) (l : Loop encode)
      → (apply_sets encode to_clients sets l).changes
        ≡ l.changes ++ unknown (known_in l.threads) sets
  unfolding apply_sets
  apply_sets-changes tc [] l = sym (append-nil l.changes)
  apply_sets-changes tc (cs ∷ rest) l =
      let o = HashMap.get l.threads.bundle.items cs.source_feed in
      apply_sets-changes tc rest (apply_set encode tc cs l o)
      ∙ ap₂ (λ c k. c ++ unknown k rest) (apply_set-changes tc cs l o refl)
          (apply_set-known tc cs l)
      ∙ delay_first l.changes cs (unknown (known_in l.threads) rest)
          (known_in l.threads cs.source_feed)

  -- What a pulse must do: each thread is changed by the buffered sets for it, in their order, the sets
  -- of other threads stay buffered, and nothing is deferred or waits to be encoded.
  pub record Applies (f r : IndexFeed) : Type 0 where
    pub threads :
        (j : ℕ) → thread_of r.threads j ≡ if_there (change_by j f.changes) (thread_of f.threads j)
    pub changes : r.changes ≡ unknown (known_in f.threads) f.changes
    pub deferred : r.deferred_fetches ≡ []
    pub written : r.enc ≡ none

  module _ (start end : Message) (deflate : List ℕ → List ℕ) where
    process-Applies :
        (f : IndexFeed) (sent : List Sent)
        → f.deferred_fetches ≡ []
        → Applies f (process encode start end deflate f sent).0
    process-Applies f sent d = record {
      threads = λ j. apply_sets-thread _ f.changes _ j;
      changes = apply_sets-changes _ f.changes _;
      deferred = d;
      written = refl;
    }

    send_deferred-Applies :
        (f : IndexFeed) (msg : Message) (r : Bundle ThreadWithPosts × Option Message)
        → encode_all encode MessageType.thread_abbreviated start end (values f.threads.bundle.items)
          ≡ some msg
        → GivesAll encode MessageType.thread_abbreviated start end f.threads.bundle r
        → ((send_deferred encode start end deflate f r).1 ≡ true)
          × Applies f (send_deferred encode start end deflate f r).0.0
    send_deferred-Applies f msg (b, none) e (g, v, h) = absurd (ground arith)
    send_deferred-Applies f msg (b, some m) e (g, v, h) =
        let a =
          process-Applies
            (record f { threads = record f.threads { bundle = b }; deferred_fetches = [] }) []
            refl in
        (
          refl,
          record {
            threads =
                λ j. a.threads j ∙ ap (λ vs. if_there (change_by j f.changes) (HashMap.get vs j)) v;
            changes = a.changes ∙ ap (λ vs. unknown (λ k. is_there (HashMap.get vs k)) f.changes) v;
            deferred = refl;
            written = refl;
          },
        )

    deferred-Applies :
        (f : IndexFeed) (msg : Message) (waiting : List ℕ)
        → f.deferred_fetches ≡ waiting
        → encode_all encode MessageType.thread_abbreviated start end (values f.threads.bundle.items)
          ≡ some msg
        → IsFresh encode MessageType.thread_abbreviated start end f.threads.bundle
        → ((deferred encode start end deflate f waiting).1 ≡ true)
          × Applies f (deferred encode start end deflate f waiting).0.0
    deferred-Applies f msg [] d e h = (refl, process-Applies f [] d)
    deferred-Applies f msg (c ∷ cs) d e h =
        send_deferred-Applies f msg _ e
          (get_message-GivesAll encode MessageType.thread_abbreviated start end f.threads.bundle
            (λ m. m) h h.faithful).0

    -- A pulse on fresh threads that all encode succeeds. It changes each thread by the buffered change
    -- sets for it, in their order and all changes of a set in order, keeps exactly the sets whose thread
    -- is not there, in their order, and leaves no fetch deferred and no message to be encoded.
    pub pulse-Applies :
        (f : IndexFeed) (clients : List ℕ) (msg : Message)
        → IsFresh encode MessageType.thread_abbreviated start end f.threads.bundle
        → encode_all encode MessageType.thread_abbreviated start end (values f.threads.bundle.items)
          ≡ some msg
        → ((pulse encode start end deflate f clients).1 ≡ true)
          × Applies f (pulse encode start end deflate f clients).0.0
    unfolding pulse
    pulse-Applies f clients msg h e =
        let f' : IndexFeed = record f { pending_pulse = false; clients = clients } in
        let (ok, a) = deferred-Applies f' msg f'.deferred_fetches refl e h in
        (
          ok,
          record {
            threads = a.threads;
            changes = a.changes;
            deferred = a.deferred;
            written = a.written;
          },
        )
