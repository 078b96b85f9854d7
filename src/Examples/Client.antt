-- ===== src/Examples/Client.antt =====
-- A client that registers a key, opens a post and closes it.
use shamichan.Prelude.{◌≡◌, refl, List, [], ◌∷◌, none, some, true, false, ◌==◌}
use shamichan.PostBody.Node.{Node, PendingNode, Command, nil, cons}
use shamichan.Payloads.{Authorization}
use shamichan.Server.Client.{
  Env, MessageHandler, OpenPost, ConnState, AnyFeed, Reply, Effect, ok, do_send,
}
use shamichan.Server.Client
use shamichan.Server.Client.Messages.{Received}
use shamichan.Server.Client.Messages.Guarded.{run, run-IsAuthentic}
use shamichan.Server.Client.Handshake.Authentic.{IsAuthentic}
use shamichan.Server.Client.Pending.{finalize_pending}
use shamichan.Server.Client.Pending.Settled.{pendings, hidden, pendings-finalize_pending}

-- A database in which each key is registered, and signatures are good.
abbrev pub env : Env
env = record {
  now = 1000;
  enable_antispam = false;
  payload = λ r. [];
  is_whitespace = λ c. c == 32;
  to_lowercase = λ s. s;
  tripcode = λ s. s;
  parse = λ s is_open. Node.text s;
  register_public_key = λ key. some (11, 21, false);
  get_public_key = λ id. none;
  verify = λ key id nonce signature. some true;
  set_public_key = λ id. true;
  set_feed = λ feed. some (AnyFeed.thread 7);
  get_feed = λ feed. some 7;
  db_insert_thread = λ params. some 30;
  registry_insert_thread = λ id params. some 7;
  db_insert_post = λ thread sage key opts. some (31, 0);
  db_close_post = λ id body. true;
  random = λ n. n;
  pcount = λ n more. some 5;
  post_location = λ n id. some (some (3, 0));
}

abbrev batches : List (List Received)
batches =
    (Received.handshake (record { protocol_version = 1; auth = Authorization.new_pub_key (2 ∷ []) })
      ∷ Received.handshake (record { protocol_version = 1; auth = Authorization.saved 21 [] [] })
      ∷ [])
    ∷ (Received.synchronize 3
        ∷ Received.insert_post (record { sage = false; thread = 3; name = [] })
        ∷ Received.append 97
        ∷ Received.backspace
        ∷ Received.close_post
        ∷ [])
    ∷ []

run-IsAuthentic_example : IsAuthentic env (run env (λ bytes. bytes) Client.new batches)
run-IsAuthentic_example = run-IsAuthentic env (λ bytes. bytes) batches

-- A coin that is flipped, and a link in a quotation.
abbrev body : Node
body = Node.children (
    cons (Node.pending PendingNode.flip)
      (cons (Node.quoted (Node.pending (PendingNode.post_link 2))) nil))

abbrev final : Node
final = Node.children (
    cons (Node.command (Command.flip false))
      (cons (Node.quoted (Node.pending (PendingNode.post_link 2))) nil))

finalized : finalize_pending env body 0 ≡ some (final, 1)
unfolding finalize_pending
finalized = refl

pendings-finalize_pending_example : pendings final ≡ hidden body
pendings-finalize_pending_example = pendings-finalize_pending env body final 0 1 finalized
