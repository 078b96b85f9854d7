-- ===== src/Feeds/Bundle.antt =====
-- A map of cached messages with one joined message of them all: `Threads` of
-- server/src/feeds/index/threads.rs and `MutablePage` of server/src/feeds/thread/page.rs.
pub mod Fresh
use shamichan.Prelude.{ℕ, List, [], ◌∷◌, ◌++◌, map, Option, none, some}
use shamichan.Codec.MessageType.{MessageType}
use shamichan.Codec.Encoder.{join}
use shamichan.Collections.HashMap.{HashMap}
use shamichan.Server.MessageCacher.{MessageCacher}
use shamichan.Server.MessageCacher

abbrev pub Message : Type 0
Message = List ℕ

-- A map of cachers, each under its identifier.
abbrev pub Items : Type 0 → Type 0
Items T = HashMap ℕ (MessageCacher T Message)

pub record Bundle (T : Type 0) : Type 0 where
  pub cache : Option Message
  pub items : Items T

-- The value in a map of cachers, without its encoding.
abbrev pub values : {T : Type 0} → Items T → List (ℕ × T)
values [] = []
values ((k, c) ∷ m) = (k, c.val) ∷ values m

module _ {T : Type 0} where
  -- `Threads::new`, `MutablePage::new`
  unfoldable pub new : Items T → Bundle T
  new items = record { cache = none; items = items }

  -- `DerefMut::deref_mut`
  unfoldable pub deref_mut : (Items T → Items T) → Bundle T → Bundle T
  deref_mut f b = record { cache = none; items = f b.items }

  -- `get_cached_message`
  unfoldable pub get_cached_message : Bundle T → Option Message
  get_cached_message b = b.cache

-- `start` and `end` are the messages that open and close the sequence, `typ` is the type of the
-- messages between them.
module _ {T : Type 0} (encode : MessageType → T → Option Message) (typ : MessageType)
    (start end : Message) where
  abbrev pub and_item :
      ℕ
      → MessageCacher T Message × Message
      → Items T × Option (List Message)
      → Items T × Option (List Message)
  and_item k (c, x) (m, none) = ((k, c) ∷ m, none)
  and_item k (c, x) (m, some xs) = ((k, c) ∷ m, some (x ∷ xs))

  -- The messages of all items, none if one of them fails; an item that fails stays as it is.
  abbrev pub and_items :
      ℕ
      → MessageCacher T Message
      → Items T
      → Option (MessageCacher T Message × Message)
      → Items T × Option (List Message)
      → Items T × Option (List Message)
  and_items k c m none rest = ((k, c) ∷ m, none)
  and_items k c m (some r) rest = and_item k r rest

  unfoldable pub get_each : Items T → Items T × Option (List Message)
  get_each [] = ([], some [])
  get_each ((k, c) ∷ m) = and_items k c m (MessageCacher.get_message encode c typ) (get_each m)

  abbrev pub joined : Items T × Option (List Message) → Bundle T × Option Message
  joined (m, none) = (record { cache = none; items = m }, none)
  joined (m, some parts) =
      let msg = join (start ∷ parts ++ end ∷ []) in
      (record { cache = some msg; items = m }, some msg)

  abbrev pub message_of : Bundle T → Option Message → Bundle T × Option Message
  message_of b (some msg) = (b, some msg)
  message_of b none = joined (get_each b.items)

  -- `get_message`: the state after the call and the message, none for an error.
  unfoldable pub get_message : Bundle T → Bundle T × Option Message
  unfolding get_each
  get_message b = message_of b b.cache
