-- ===== src/Decimal.antt =====
-- Decimal numbers as they are printed and parsed: `format!`, `str::parse::<u64>` and
-- `str::parse::<i32>`, for client/src/state/location.rs and server/src/body.
use shamichan.Prelude.{
  ℕ, zero, suc, ◌+◌, ◌-◌, ◌*◌, ◌/◌, ◌%◌, ◌^◌, ◌<◌, ◌≡◌, ◌≢◌, refl, ap, ◌∙◌, List, [], ◌∷◌, ◌++◌,
  Option, none, some, Bool, true, false, if◌then◌else◌, leb, ltb, ◌==◌, ◌&&◌, arith, Bool-cases,
  inl, inr,
}
use shamichan.PostBody.Node.{ℤ, pos, negsuc}
use shamichan.Server.Client.Pending.{digits}

abbrev pub is_digit : ℕ → Bool
is_digit c = leb 48 c && leb c 57

-- A number in decimal digits.
abbrev pub show : ℕ → List ℕ
show n = digits (suc n) n

abbrev pub show_int : ℤ → List ℕ
show_int (pos n) = show n
show_int (negsuc n) = 45 ∷ show (suc n)

-- The number that digits continue.
abbrev pub read_from : ℕ → List ℕ → Option ℕ
read_from n [] = some n
read_from n (c ∷ cs) =
    let rest = read_from (n * 10 + (c - 48)) cs in if is_digit c then rest else none

-- At least one digit, and no more than digits.
abbrev pub read_digits : List ℕ → Option ℕ
read_digits [] = none
read_digits (c ∷ cs) = read_from 0 (c ∷ cs)

-- A number that is at most `n`
abbrev pub at_most : ℕ → Option ℕ → Option ℕ
at_most n none = none
at_most n (some k) = if leb k n then some k else none

abbrev pub without_plus : List ℕ → List ℕ
without_plus [] = []
without_plus (c ∷ cs) = if c == 43 then cs else c ∷ cs

-- `parse::<u64>`
unfoldable pub parse_u64 : List ℕ → Option ℕ
parse_u64 s = at_most (2 ^ 64 - 1) (read_digits (without_plus s))

abbrev pub negative : Option ℕ → Option ℤ
negative none = none
negative (some zero) = some (pos 0)
negative (some (suc n)) = some (negsuc n)

abbrev pub positive : Option ℕ → Option ℤ
positive none = none
positive (some n) = some (pos n)

-- `parse::<i32>`
unfoldable pub parse_i32 : List ℕ → Option ℤ
parse_i32 [] = none
parse_i32 (c ∷ cs) =
    if c == 45
    then negative (at_most (2 ^ 31) (read_digits cs))
    else positive (at_most (2 ^ 31 - 1) (read_digits (without_plus (c ∷ cs))))

-- `parse` of an unsigned number that is at most `n`.
abbrev pub parse_up_to : ℕ → List ℕ → Option ℕ
parse_up_to n s = at_most n (read_digits (without_plus s))

-- `parse::<i16>`
abbrev pub parse_i16 : List ℕ → Option ℤ
parse_i16 [] = none
parse_i16 (c ∷ cs) =
    if c == 45
    then negative (at_most (2 ^ 15) (read_digits cs))
    else positive (parse_up_to (2 ^ 15 - 1) (c ∷ cs))

abbrev pub next_digit : ℕ → Option ℕ → Option ℕ
next_digit c none = none
next_digit c (some n) = if is_digit c then some (n * 10 + (c - 48)) else none

read_from-append :
    (n c : ℕ) (cs : List ℕ) → read_from n (cs ++ c ∷ []) ≡ next_digit c (read_from n cs)
read_from-append n c [] = refl
read_from-append n c (d ∷ cs) = elim (Bool-cases (is_digit d)) [
  | inl h ↦ rw h (read_from-append (n * 10 + (d - 48)) c cs)
  | inr h ↦ rw h refl
]

digit_lem : (n : ℕ) → is_digit (48 + n % 10) ≡ true
digit_lem n = let h : n % 10 < 10 = omega arith in ground arith

digit-next : (n : ℕ) → n / 10 * 10 + (48 + n % 10 - 48) ≡ n
digit-next n = omega arith

read_last :
    (n : ℕ) (cs : List ℕ)
    → read_from 0 cs ≡ some (n / 10)
    → read_from 0 (cs ++ (48 + n % 10) ∷ []) ≡ some n
read_last n cs h =
    read_from-append 0 (48 + n % 10) cs
    ∙ ap (next_digit (48 + n % 10)) h
    ∙ ap (λ b. if b then some (n / 10 * 10 + (48 + n % 10 - 48)) else none) (digit_lem n)
    ∙ ap some (digit-next n)

read_from-digits : (fuel n : ℕ) → n < fuel → read_from 0 (digits fuel n) ≡ some n
read_from-digits zero n h = absurd (omega arith)
read_from-digits (suc fuel) n h = elim (Bool-cases (ltb n 10)) [
  | inl s ↦ rw s (read_last n [] (ap some (ground arith)))
  | inr s ↦
      let less : n / 10 < fuel = ground arith in
      rw s (read_last n (digits fuel (n / 10)) (read_from-digits fuel (n / 10) less))
]

-- What only digits stand in.
abbrev pub are_digits : List ℕ → Bool
are_digits [] = true
are_digits (c ∷ cs) = is_digit c && are_digits cs

are_digits-append :
    (cs : List ℕ) (c : ℕ)
    → are_digits cs ≡ true
    → is_digit c ≡ true
    → are_digits (cs ++ c ∷ []) ≡ true
are_digits-append [] c h k = ground arith
are_digits-append (d ∷ cs) c h k = ground (arith, are_digits-append cs c)

pub are_digits-digits : (fuel n : ℕ) → are_digits (digits fuel n) ≡ true
are_digits-digits zero n = refl
are_digits-digits (suc fuel) n = elim (Bool-cases (ltb n 10)) [
  | inl s ↦ rw s (are_digits-append [] (48 + n % 10) refl (digit_lem n))
  | inr s ↦ rw s (
      are_digits-append (digits fuel (n / 10)) (48 + n % 10) (are_digits-digits fuel (n / 10))
        (digit_lem n))
]

-- Digits are what they are without a sign, and one of them at least stands there.
read_plain :
    (n : ℕ) (cs : List ℕ)
    → are_digits cs ≡ true
    → read_from 0 cs ≡ some n
    → cs ≢ []
    → read_digits (without_plus cs) ≡ some n
read_plain n [] h e ne = absurd (ne refl)
read_plain n (c ∷ cs) h e ne = let plain : (c == 43) ≡ false = ground arith in rw plain e

append-not_empty : (cs : List ℕ) (c : ℕ) → cs ++ c ∷ [] ≢ []
append-not_empty [] c h = absurd (ground arith)
append-not_empty (d ∷ cs) c h = absurd (ground arith)

show-not_empty : (n : ℕ) → show n ≢ []
show-not_empty n = append-not_empty (if ltb n 10 then [] else digits n (n / 10)) (48 + n % 10)

read-show : (n : ℕ) → read_digits (without_plus (show n)) ≡ some n
read-show n =
    read_plain n (show n) (are_digits-digits (suc n) n) (read_from-digits (suc n) n (omega arith))
      (show-not_empty n)

-- A number that fits is read back as it was printed.
pub parse_u64-show : (n : ℕ) → n < 2 ^ 64 → parse_u64 (show n) ≡ some n
unfolding parse_u64
parse_u64-show n h =
    let fits : leb n (2 ^ 64 - 1) ≡ true = ground arith in
    ap (at_most (2 ^ 64 - 1)) (read-show n) ∙ rw fits refl

-- The integers of 32 bits.
abbrev pub IsI32 : ℤ → Type 0
IsI32 (pos n) = n < 2 ^ 31
IsI32 (negsuc n) = n < 2 ^ 31

unsigned :
    (cs : List ℕ) (n : ℕ)
    → are_digits cs ≡ true
    → cs ≢ []
    → read_digits (without_plus cs) ≡ some n
    → n < 2 ^ 31
    → parse_i32 cs ≡ some (pos n)
unfolding parse_i32
unsigned [] n h ne e k = absurd (ne refl)
unsigned (c ∷ cs) n h ne e k =
    let sign : (c == 45) ≡ false = ground arith in
    let fits : leb n (2 ^ 31 - 1) ≡ true = ground arith in
    rw sign (ap (λ o. positive (at_most (2 ^ 31 - 1) o)) e ∙ rw fits refl)

no_plus :
    (cs : List ℕ) (n : ℕ)
    → are_digits cs ≡ true
    → cs ≢ []
    → read_from 0 cs ≡ some n
    → read_digits cs ≡ some n
no_plus [] n h ne e = absurd (ne refl)
no_plus (c ∷ cs) n h ne e = e

pub parse_i32-show_int : (n : ℤ) → IsI32 n → parse_i32 (show_int n) ≡ some n
unfolding parse_i32
parse_i32-show_int (pos n) h =
    unsigned (show n) n (are_digits-digits (suc n) n) (show-not_empty n) (read-show n) h
parse_i32-show_int (negsuc n) h =
    let fits : leb (suc n) (2 ^ 31) ≡ true = ground arith in
    ap (λ o. negative (at_most (2 ^ 31) o))
      (no_plus (show (suc n)) (suc n) (are_digits-digits (suc (suc n)) (suc n))
        (show-not_empty (suc n)) (read_from-digits (suc (suc n)) (suc n) (omega arith)))
    ∙ rw fits refl
