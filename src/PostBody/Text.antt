-- ===== src/PostBody/Text.antt =====
-- Text patches: `TextPatch` of common/src/payloads/post_body.rs. A `char` is its code point.
pub mod RoundTrip
use shamichan.Prelude.{
  ℕ, suc, ◌+◌, ◌-◌, ◌%◌, ◌^◌, List, [], ◌∷◌, ◌++◌, reverse, if◌then◌else◌, ◌==◌, leb, length, take,
  drop,
}

pub record TextPatch : Type 0 where
  pub position : ℕ
  pub remove : ℕ
  pub insert : List ℕ

-- `usize as u16`
abbrev pub as_u16 : ℕ → ℕ
as_u16 n = n % 2 ^ 16

-- `zip`, `take_while` and `count`: the first position at which two texts differ.
unfoldable pub diff_i : List ℕ → List ℕ → ℕ
diff_i [] bs = 0
diff_i (a ∷ as') [] = 0
diff_i (a ∷ as') (b ∷ bs) = if a == b then suc (diff_i as' bs) else 0

-- `TextPatch::new`
unfoldable pub new : List ℕ → List ℕ → TextPatch
new old text = record {
  position = as_u16 start;
  remove = as_u16 (length old - end - start);
  insert = take (length text - end - start) (drop start text);
}
  where
    start : ℕ
    start = diff_i old text

    end : ℕ
    end = diff_i (reverse (drop start old)) (reverse (drop start text))

-- `dst` is the text written before the call.
unfoldable pub apply : TextPatch → List ℕ → List ℕ → List ℕ
apply p dst src = dst ++ (take p.position src ++ (p.insert ++ drop p.remove (drop p.position src)))

-- Signed 16-bit arithmetic in two's complement: a negative sum is 2 ^ 15 or more.
unfoldable pub estimate_new_size : TextPatch → ℕ → ℕ
estimate_new_size p dst_size =
    let s = (as_u16 dst_size + 2 ^ 16 - as_u16 p.remove + as_u16 (length p.insert)) % 2 ^ 16 in
    if leb s 2000 then s else dst_size
