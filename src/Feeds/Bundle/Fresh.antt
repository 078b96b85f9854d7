-- ===== src/Feeds/Bundle/Fresh.antt =====
-- The joined message that is cached is the one of the values (server/src/feeds/index/threads.rs and
-- server/src/feeds/thread/page.rs).
use shamichan.Prelude.{ℕ, ◌≡◌, refl, ap, ap₂, sym, ◌∙◌, List, [], ◌∷◌, ◌++◌, Option, none, some}
use shamichan.Codec.MessageType.{MessageType}
use shamichan.Codec.Encoder.{join}
use shamichan.Server.MessageCacher.{MessageCacher, IsFaithful, Gives}
use shamichan.Server.MessageCacher
use shamichan.Feeds.Bundle.{
  Message, Items, Bundle, values, and_items, get_each, joined, message_of, get_message, deref_mut,
}

module _ {T : Type 0} (encode : MessageType → T → Option Message) (typ : MessageType)
    (start end : Message) where
  abbrev pub encode_and : Option Message → Option (List Message) → Option (List Message)
  encode_and none xs = none
  encode_and (some x) none = none
  encode_and (some x) (some xs) = some (x ∷ xs)

  -- The messages of the values, none where one of them does not encode.
  abbrev pub encode_each : List (ℕ × T) → Option (List Message)
  encode_each [] = some []
  encode_each ((k, v) ∷ m) = encode_and (encode typ v) (encode_each m)

  abbrev pub join_parts : Option (List Message) → Option Message
  join_parts none = none
  join_parts (some parts) = some (join (start ∷ parts ++ end ∷ []))

  -- The joined message of the values.
  abbrev pub encode_all : List (ℕ × T) → Option Message
  encode_all m = join_parts (encode_each m)

  abbrev pub AllFaithful : Items T → Type 0
  AllFaithful [] = Unit {0}
  AllFaithful ((k, c) ∷ m) = IsFaithful encode c × AllFaithful m

  abbrev pub CachesAll : List (ℕ × T) → Option Message → Type 0
  CachesAll vs none = Unit {0}
  CachesAll vs (some msg) = encode_all vs ≡ some msg

  -- What is cached, jointly and for each item, is the encoding of the values.
  pub record IsFresh (b : Bundle T) : Type 0 where
    pub faithful : AllFaithful b.items
    pub caches : CachesAll (values b.items) b.cache

  -- The messages of the items are those of their values, and the values stay.
  abbrev pub Each : Items T → Items T × Option (List Message) → Type 0
  Each m (m', r) = (r ≡ encode_each (values m)) × (values m' ≡ values m) × AllFaithful m'

  and_items-Each :
      (k : ℕ) (c : MessageCacher T Message) (m : Items T)
      (o : Option (MessageCacher T Message × Message)) (rest : Items T × Option (List Message))
      → AllFaithful ((k, c) ∷ m)
      → Gives encode c typ o
      → Each m rest
      → Each ((k, c) ∷ m) (and_items encode typ start end k c m o rest)
  and_items-Each k c m none rest f g h =
      (ap (λ o. encode_and o (encode_each (values m))) (sym g), refl, f)
  and_items-Each k c m (some (c', x)) (m', none) f (e, v, f') (r, vs, fs) =
      (ap₂ encode_and (sym e) r, ap₂ (λ a b. (k, a) ∷ b) v vs, (f', fs))
  and_items-Each k c m (some (c', x)) (m', some xs) f (e, v, f') (r, vs, fs) =
      (ap₂ encode_and (sym e) r, ap₂ (λ a b. (k, a) ∷ b) v vs, (f', fs))

  get_each-Each : (m : Items T) → AllFaithful m → Each m (get_each encode typ start end m)
  unfolding get_each
  get_each-Each [] f = (refl, refl, tt)
  get_each-Each ((k, c) ∷ m) (f, fs) =
      and_items-Each k c m _ _ (f, fs) (MessageCacher.get_message-Gives encode c typ (λ v. v) f).0
        (get_each-Each m fs)

  -- What a call must give: the joined message of the values, none exactly where it does not encode,
  -- with the values as they were and the caches fresh.
  abbrev pub GivesAll : Bundle T → Bundle T × Option Message → Type 0
  GivesAll b (b', r) =
      (r ≡ encode_all (values b.items)) × (values b'.items ≡ values b.items) × IsFresh b'

  joined-GivesAll :
      (b : Bundle T) (r : Items T × Option (List Message))
      → Each b.items r
      → GivesAll b (joined encode typ start end r)
  joined-GivesAll b (m, none) (e, vs, f) =
      (ap join_parts e, vs, record { faithful = f; caches = tt })
  joined-GivesAll b (m, some parts) (e, vs, f) = (
    ap join_parts e,
    vs,
    record { faithful = f; caches = ap encode_all vs ∙ sym (ap join_parts e) },
  )

  message_of-GivesAll :
      (b : Bundle T) (o : Option Message)
      → IsFresh b
      → CachesAll (values b.items) o
      → GivesAll b (message_of encode typ start end b o)
  message_of-GivesAll b (some msg) h c = (sym c, refl, h)
  message_of-GivesAll b none h c =
      joined-GivesAll b (get_each encode typ start end b.items) (get_each-Each b.items h.faithful)

  -- The caches are not seen: `get_message` on a fresh bundle gives the joined message of the values,
  -- fails exactly where one of them does not encode, leaves the values as they were and the bundle
  -- fresh; and a mutation that leaves the single caches faithful leaves the bundle fresh.
  pub get_message-GivesAll :
      (b : Bundle T) (f : Items T → Items T)
      → IsFresh b
      → AllFaithful (f b.items)
      → GivesAll b (get_message encode typ start end b) × IsFresh (deref_mut f b)
  unfolding get_message deref_mut
  get_message-GivesAll b f h g =
      (message_of-GivesAll b b.cache h h.caches, record { faithful = g; caches = tt })
