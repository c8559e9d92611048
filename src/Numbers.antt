-- ===== src/Numbers.antt =====
-- Numbers in texts: `std::stol`, and `is_ipv4` of raft/entry_iterator.hpp.
use draft.Base.{
  ℕ, ◌+◌, ◌-◌, ◌*◌, Bool, true, false, not, ◌&&◌, Option, none, some, List, [], ◌∷◌, Str, leb, ◌==◌,
  if◌then◌else◌, skip_space, length,
}
use draft.Split.{split}

abbrev is_digit : ℕ → Bool
is_digit c = leb b'0' c && leb c b'9'

-- The digits at the front, behind those that give `n`.
unfoldable pub more_digits : ℕ → Str → ℕ
more_digits n [] = n
more_digits n (c ∷ s) =
    let rest = more_digits (n * 10 + (c - b'0')) s in if is_digit c then rest else n

-- `none` where there is no digit: `std::invalid_argument`.
unfoldable pub digits : Str → Option ℕ
digits [] = none
digits (c ∷ s) = if is_digit c then some (more_digits (c - b'0') s) else none

-- A number and whether it is negative.
abbrev signed : Bool → Option ℕ → Option (Bool × ℕ)
signed negative none = none
signed negative (some n) = some (negative, n)

unfoldable pub after_space : Str → Option (Bool × ℕ)
after_space [] = none
after_space (c ∷ s) =
    if c == b'-'
    then signed true (digits s)
    else if c == b'+'
    then signed false (digits s)
    else signed false (digits (c ∷ s))

-- `std::stol`, of any number of digits: what stands behind the digits is not read.
unfoldable pub stol : Str → Option (Bool × ℕ)
stol s = after_space (skip_space s)

-- `field > 255 || field < 0`, or an exception; a number out of range is one.
abbrev is_byte : Option (Bool × ℕ) → Bool
is_byte none = false
is_byte (some (negative, n)) = leb n 255 && not (negative && not (n == 0))

-- `strtok_r`: empty fields are left out.
unfoldable pub fields : List Str → List Str
fields [] = []
fields ([] ∷ fs) = fields fs
fields ((c ∷ f) ∷ fs) = (c ∷ f) ∷ fields fs

unfoldable pub all_bytes : List Str → Bool
all_bytes [] = true
all_bytes (f ∷ fs) = is_byte (stol f) && all_bytes fs

unfoldable pub is_ipv4 : Str → Bool
is_ipv4 s = let fs = fields (split b'.' s) in all_bytes fs && length fs == 4
