-- ===== src/Endian.antt =====
-- raft/utils.hpp: the byte order of the numbers that the log keeps in its data.
use draft.Base.{
  ℕ, zero, suc, ◌+◌, ◌*◌, ◌/◌, ◌%◌, ◌^◌, ◌<◌, ◌≡◌, refl, ◌∙◌, Bool, true, false, arith,
  if◌then◌else◌,
}

-- Byte `k` of a number, the lowest first: `(n >> 8 * k) & 0xff`.
unfoldable pub byte : ℕ → ℕ → ℕ
byte zero n = n % 256
byte (suc k) n = byte k (n / 256)

abbrev from_digits : ℕ → ℕ → ℕ → ℕ → ℕ → ℕ → ℕ → ℕ → ℕ
from_digits a b c d e f g h =
    a + 256 * (b + 256 * (c + 256 * (d + 256 * (e + 256 * (f + 256 * (g + 256 * h))))))

-- `reverse`: each masked byte moves to the mirrored place; the parts do not overlap, so `|` is `+`.
unfoldable pub reverse : ℕ → ℕ
reverse n =
    from_digits (byte 7 n) (byte 6 n) (byte 5 n) (byte 4 n) (byte 3 n) (byte 2 n) (byte 1 n)
      (byte 0 n)

-- `little_endian` asks the machine; here it is an argument.
unfoldable pub hton64 : Bool → ℕ → ℕ
unfolding reverse
hton64 little_endian n = if little_endian then reverse n else n

unfoldable pub ntoh64 : Bool → ℕ → ℕ
unfolding hton64
ntoh64 little_endian n = hton64 little_endian n

digits-from_digits :
    (n : ℕ)
    → n < 2 ^ 64
    → from_digits
        (byte 0 n)
        (byte 1 n)
        (byte 2 n)
        (byte 3 n)
        (byte 4 n)
        (byte 5 n)
        (byte 6 n)
        (byte 7 n)
      ≡ n
unfolding byte
digits-from_digits n h = omega arith

byte_bound : (k n : ℕ) → byte k n < 256
unfolding byte
byte_bound zero n = omega arith
byte_bound (suc k) n = byte_bound k (n / 256)

-- The low byte goes, the others move down.
byte-shift : (k a r x : ℕ) → a < 256 → byte k r ≡ x → byte (suc k) (a + 256 * r) ≡ x
unfolding byte
byte-shift k a r x h p = let e : (a + 256 * r) / 256 ≡ r = omega arith in rw e p

byte-low : (a r : ℕ) → a < 256 → byte 0 (a + 256 * r) ≡ a
unfolding byte
byte-low a r h = omega arith

byte_last : (a : ℕ) → a < 256 → byte 0 a ≡ a
unfolding byte
byte_last a h = omega arith

abbrev IsByte : ℕ → Type 0
IsByte a = a < 256

module _ {a b c d e f g h : ℕ} (ha : IsByte a) (hb : IsByte b) (hc : IsByte c) (hd : IsByte d)
    (he : IsByte e) (hf : IsByte f) (hg : IsByte g) (hh : IsByte h) where
  reverse-from_digits : reverse (from_digits a b c d e f g h) ≡ from_digits h g f e d c b a
  unfolding reverse
  reverse-from_digits = cc (
    byte-low a _ ha,
    byte-shift 0 a _ b ha (byte-low b _ hb),
    byte-shift 1 a _ c ha (byte-shift 0 b _ c hb (byte-low c _ hc)),
    byte-shift 2 a _ d ha (byte-shift 1 b _ d hb (byte-shift 0 c _ d hc (byte-low d _ hd))),
    byte-shift 3 a _ e ha
        (byte-shift 2 b _ e hb (byte-shift 1 c _ e hc (byte-shift 0 d _ e hd (byte-low e _ he)))),
    byte-shift 4 a _ f ha (
        byte-shift 3 b _ f hb (
          byte-shift 2 c _ f hc (byte-shift 1 d _ f hd (byte-shift 0 e _ f he (byte-low f _ hf))))),
    byte-shift 5 a _ g ha (
        byte-shift 4 b _ g hb (
          byte-shift 3 c _ g hc (
            byte-shift 2 d _ g hd
              (byte-shift 1 e _ g he (byte-shift 0 f _ g hf (byte-low g _ hg)))))),
    byte-shift 6 a _ h ha (
        byte-shift 5 b _ h hb (
          byte-shift 4 c _ h hc (
            byte-shift 3 d _ h hd (
              byte-shift 2 e _ h he
                (byte-shift 1 f _ h hf (byte-shift 0 g _ h hg (byte_last h hh))))))),
  )

-- Two reversals cancel.
reverse-reverse : (n : ℕ) → n < 2 ^ 64 → reverse (reverse n) ≡ n
unfolding reverse
reverse-reverse n h =
    reverse-from_digits (byte_bound 7 n) (byte_bound 6 n) (byte_bound 5 n) (byte_bound 4 n)
      (byte_bound 3 n) (byte_bound 2 n) (byte_bound 1 n) (byte_bound 0 n)
    ∙ digits-from_digits n h

-- Converting to network order and back is the identity below 2^64, whatever the byte order of the machine.
pub ntoh64-hton64 : (le : Bool) (n : ℕ) → n < 2 ^ 64 → ntoh64 le (hton64 le n) ≡ n
unfolding ntoh64 hton64
ntoh64-hton64 true n h = reverse-reverse n h
ntoh64-hton64 false n h = refl

pub hton64_bound : (le : Bool) (n : ℕ) → n < 2 ^ 64 → hton64 le n < 2 ^ 64
unfolding hton64 reverse
hton64_bound false n h = h
hton64_bound true n h = omega (
  arith,
  byte_bound 0 n,
  byte_bound 1 n,
  byte_bound 2 n,
  byte_bound 3 n,
  byte_bound 4 n,
  byte_bound 5 n,
  byte_bound 6 n,
  byte_bound 7 n,
)
