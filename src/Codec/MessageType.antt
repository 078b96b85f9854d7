-- ===== src/Codec/MessageType.antt =====
-- Message types (common/src/message_types.rs) and their numbers on the wire.
use shamichan.Prelude.{ℕ, ◌<◌, ◌≡◌, refl, List, [], ◌∷◌, Option, some, get_elem?, arith}

pub data MessageType : Type 0 where
  handshake synchronize insert_thread insert_thread_ack insert_post insert_post_ack : MessageType
  insert_image captcha need_captcha patch_post_body append backspace current_time : MessageType
  page configs partitioned_page_start partitioned_page_end : MessageType
  partitioned_thread_index_start partitioned_thread_index_end post thread_meta : MessageType
  thread_abbreviated used_tags close_post : MessageType

-- `t as u8`
unfoldable pub to_u8 : MessageType → ℕ
to_u8 handshake = 0
to_u8 synchronize = 1
to_u8 insert_thread = 2
to_u8 insert_thread_ack = 3
to_u8 insert_post = 4
to_u8 insert_post_ack = 5
to_u8 insert_image = 6
to_u8 captcha = 7
to_u8 need_captcha = 8
to_u8 patch_post_body = 9
to_u8 append = 10
to_u8 backspace = 11
to_u8 current_time = 12
to_u8 page = 13
to_u8 configs = 14
to_u8 partitioned_page_start = 15
to_u8 partitioned_page_end = 16
to_u8 partitioned_thread_index_start = 17
to_u8 partitioned_thread_index_end = 18
to_u8 post = 19
to_u8 thread_meta = 20
to_u8 thread_abbreviated = 21
to_u8 used_tags = 22
to_u8 close_post = 23

-- The enumeration in the order of its declaration.
abbrev variants : List MessageType
variants =
    handshake ∷ synchronize ∷ insert_thread ∷ insert_thread_ack ∷ insert_post ∷ insert_post_ack
    ∷ insert_image ∷ captcha ∷ need_captcha ∷ patch_post_body ∷ append ∷ backspace ∷ current_time
    ∷ page ∷ configs ∷ partitioned_page_start ∷ partitioned_page_end
    ∷ partitioned_thread_index_start ∷ partitioned_thread_index_end ∷ post ∷ thread_meta
    ∷ thread_abbreviated ∷ used_tags ∷ close_post ∷ []

-- The derived `FromPrimitive::from_u8`.
unfoldable pub from_u8 : ℕ → Option MessageType
from_u8 n = get_elem? variants n

pub from_u8-to_u8 : (t : MessageType) → from_u8 (to_u8 t) ≡ some t
unfolding from_u8 to_u8
from_u8-to_u8 handshake = refl
from_u8-to_u8 _ = refl

pub to_u8_lt : (t : MessageType) → to_u8 t < 24
unfolding to_u8
to_u8_lt handshake = omega arith
to_u8_lt _ = omega arith
