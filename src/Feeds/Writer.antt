-- ===== src/Feeds/Writer.antt =====
-- `Writer` of server/src/feeds/thread/writer.rs. A payload is the pieces that its serializer writes.
pub mod Propagation
use shamichan.Prelude.{
  ℕ, List, [], ◌∷◌, ◌++◌, map, Option, none, some, Bool, true, false, if◌then◌else◌, ◌||◌, leb,
  ◌==◌,
}
use shamichan.Codec.MessageType.{MessageType}
use shamichan.Codec.Encoder.{Encoder, finish}
use shamichan.Codec.Encoder
use shamichan.Feeds.Changes.{Change, ChangeSet, Sent, send_message, change_set}
use shamichan.Feeds.Last5.{Last5, push_all, push}
use shamichan.Feeds.Last5

abbrev pub Payload : Type 0
Payload = List (List ℕ)

pub record Global : Type 0 where
  pub enc : Encoder
  pub changes : List Change

pub record Writer : Type 0 where
  pub feed : ℕ
  pub index_feed : ℕ
  pub last_5_posts : Last5
  pub enc : Option Encoder
  pub global : Option Global

-- `get_or_insert_with(|| Default::default())` on encoders
abbrev pub or_new : Option Encoder → Encoder
or_new none = Encoder.new []
or_new (some e) = e

abbrev pub or_default : Option Global → Global
or_default none = record { enc = Encoder.new []; changes = [] }
or_default (some g) = g

-- `Writer::new`
unfoldable pub new : ℕ → ℕ → List ℕ → Writer
unfolding push_all
new feed index_feed last_5_posts = record {
  feed = feed;
  index_feed = index_feed;
  last_5_posts = push_all (Last5.new feed) last_5_posts;
  enc = none;
  global = none;
}

-- `Writer::register_post_id`
unfoldable pub register_post_id : Writer → ℕ → Writer
register_post_id w id = record w { last_5_posts = push w.last_5_posts id }

-- `Writer::write_message`
unfoldable pub write_message : Writer → MessageType → Payload → Writer
write_message w t payload = record w { enc = some (Encoder.write_message (or_new w.enc) t payload) }

-- `Writer::write_global_change`
unfoldable pub write_global_change : Writer → MessageType → Payload → Change → Writer
write_global_change w t payload change =
    let set = or_default w.global in
    record w {
      global = some (record {
        enc = Encoder.write_message set.enc t payload;
        changes = set.changes ++ change ∷ [];
      });
    }

-- `Writer::write_post_message`
unfoldable pub write_post_message : Writer → ℕ → MessageType → Payload → Change → Writer
unfolding write_message write_global_change Last5.min
write_post_message w post_id t payload change =
    let w' = write_message w t payload in
    if (post_id == w'.feed) || leb (Last5.min w'.last_5_posts) post_id
    then write_global_change w' t payload change
    else w'

abbrev pub to_clients : List ℕ → Option (List ℕ) → List Sent
to_clients clients none = []
to_clients clients (some msg) = map (λ c. send_message c msg) clients

module _ (deflate : List ℕ → List ℕ) where
  abbrev pub finished : Option Encoder → Option (List ℕ)
  finished none = none
  finished (some e) = some (finish deflate e)

  abbrev pub to_index : ℕ → ℕ → Option Global → List Sent
  to_index feed index_feed none = []
  to_index feed index_feed (some set) =
      change_set index_feed
        (record { source_feed = feed; message = finish deflate set.enc; changes = set.changes })
      ∷ []

  -- `Writer::flush`
  unfoldable pub flush : Writer → List ℕ → Writer × List Sent
  flush w clients = (
    record w { enc = none; global = none },
    to_clients clients (finished w.enc) ++ to_index w.feed w.index_feed w.global,
  )
