-- ===== src/Server/MessageCacher.antt =====
-- `MessageCacher` of server/src/util.rs. `encode` is `Encoder::encode` on the value, none where it
-- fails.
use shamichan.Prelude.{
  ◌≡◌, refl, ap, ◌∙◌, sym, Option, none, some, Bool, true, if◌then◌else◌, ◌==◌, arith, Bool-cases,
  inl, inr,
}
use shamichan.Codec.MessageType.{MessageType, to_u8, from_u8, from_u8-to_u8}

-- An encoded message is the list of its bytes behind a pointer; here its content.
pub record MessageCacher {ℓ} (T M : Type ℓ) : Type ℓ where
  pub val : T
  pub cached : Option (MessageType × M)

-- The derived equality of message types.
abbrev pub type_eq : MessageType → MessageType → Bool
type_eq t u = to_u8 t == to_u8 u

type_eq_iff : (t u : MessageType) → type_eq t u ≡ true → t ≡ u
type_eq_iff t u h =
    let e : to_u8 t ≡ to_u8 u = ground arith in
    let p : some t ≡ some u = sym (from_u8-to_u8 t) ∙ ap from_u8 e ∙ from_u8-to_u8 u in cc

module _ {ℓ} {T M : Type ℓ} (encode : MessageType → T → Option M) where
  -- `MessageCacher::new`
  unfoldable pub new : T → MessageCacher T M
  new val = record { val = val; cached = none }

  abbrev pub encoded : MessageCacher T M → MessageType → Option M → Option (MessageCacher T M × M)
  encoded c typ none = none
  encoded c typ (some m) = some (record c { cached = some (typ, m) }, m)

  abbrev pub message_of :
      MessageCacher T M → MessageType → Option (MessageType × M) → Option (MessageCacher T M × M)
  message_of c typ none = encoded c typ (encode typ c.val)
  message_of c typ (some (t, m)) =
      if type_eq typ t then some (c, m) else encoded c typ (encode typ c.val)

  -- `MessageCacher::get_message`: the cacher after the call and the message, none for an error.
  unfoldable pub get_message : MessageCacher T M → MessageType → Option (MessageCacher T M × M)
  get_message c typ = message_of c typ c.cached

  -- A mutation of the value through `deref_mut`.
  unfoldable pub deref_mut : (T → T) → MessageCacher T M → MessageCacher T M
  deref_mut f c = record c { val = f c.val; cached = none }

  -- What is cached is the encoding of the value, under its type.
  abbrev pub Caches : T → Option (MessageType × M) → Type ℓ
  Caches val none = Unit {ℓ}
  Caches val (some (t, m)) = encode t val ≡ some m

  abbrev pub IsFaithful : MessageCacher T M → Type ℓ
  IsFaithful c = Caches c.val c.cached

  -- What `get_message` must give: the encoding of the value under the type that is asked for, where
  -- it succeeds, and a cacher of the same value that is faithful again.
  abbrev pub Gives : MessageCacher T M → MessageType → Option (MessageCacher T M × M) → Type ℓ
  Gives c typ none = encode typ c.val ≡ none
  Gives c typ (some (c', m)) = (encode typ c.val ≡ some m) × (c'.val ≡ c.val) × IsFaithful c'

  encoded-Gives :
      (c : MessageCacher T M) (typ : MessageType) (o : Option M)
      → encode typ c.val ≡ o
      → Gives c typ (encoded c typ o)
  encoded-Gives c typ none e = e
  encoded-Gives c typ (some m) e = (e, refl, e)

  message_of-Gives :
      (c : MessageCacher T M) (typ : MessageType) (o : Option (MessageType × M))
      → IsFaithful c
      → Caches c.val o
      → Gives c typ (message_of c typ o)
  message_of-Gives c typ none f h = encoded-Gives c typ (encode typ c.val) refl
  message_of-Gives c typ (some (t, m)) f h = elim (Bool-cases (type_eq typ t)) [
    | inl same ↦ rw same (ap (λ u. encode u c.val) (type_eq_iff typ t same) ∙ h, refl, f)
    | inr other ↦ rw other (encoded-Gives c typ (encode typ c.val) refl)
  ]

  -- The cache is not seen: `get_message` on a faithful cacher gives the encoding of the value under
  -- the type that is asked for, fails exactly where that encoding fails, leaves the value as it was
  -- and the cacher faithful; a mutation leaves it faithful too.
  pub get_message-Gives :
      (c : MessageCacher T M) (typ : MessageType) (f : T → T)
      → IsFaithful c
      → Gives c typ (get_message c typ) × IsFaithful (deref_mut f c)
  unfolding get_message deref_mut
  get_message-Gives c typ f h = (message_of-Gives c typ c.cached h h, tt)
