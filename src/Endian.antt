-- ===== src/Endian.antt =====
-- sylar/sylar/endian.h, on a little-endian machine: a number as its bytes in memory, and bswap_16,
-- bswap_32 and bswap_64, which reverse them.
mod Tests
use custom_net_framework.Prelude.{
  ℕ, zero, suc, ◌+◌, ◌*◌, ◌/◌, ◌%◌, ◌^◌, ◌<◌, ◌≡◌, List, [], ◌∷◌, ◌++◌, length, length-append, take,
  All, refl, sym, ap, subst, ◌∙◌, arith,
}

-- The bytes of a number of a width, the lowest first.
unfoldable pub to_bytes : ℕ → ℕ → List ℕ
to_bytes zero x = []
to_bytes (suc w) x = x % 256 ∷ to_bytes w (x / 256)

unfoldable pub from_bytes : List ℕ → ℕ
from_bytes [] = 0
from_bytes (b ∷ bs) = b + 256 * from_bytes bs

abbrev pub reverse : List ℕ → List ℕ
reverse [] = []
reverse (x ∷ xs) = reverse xs ++ x ∷ []

-- `byteswap` of a type of `w` bytes, and `byteswapOnLittleEndian` here.
unfoldable pub byteswap : ℕ → ℕ → ℕ
unfolding to_bytes from_bytes
byteswap w x = from_bytes (reverse (to_bytes w x))

abbrev pub IsByte : ℕ → Type 0
IsByte b = b < 256

pub length-to_bytes : (w x : ℕ) → length (to_bytes w x) ≡ w
unfolding to_bytes
length-to_bytes zero x = refl
length-to_bytes (suc w) x = ap suc (length-to_bytes w (x / 256))

length-reverse : (xs : List ℕ) → length (reverse xs) ≡ length xs
length-reverse [] = refl
length-reverse (x ∷ xs) = omega (arith, length-append (reverse xs) (x ∷ []), length-reverse xs)

reverse-append : (xs : List ℕ) (y : ℕ) → reverse (xs ++ y ∷ []) ≡ y ∷ reverse xs
reverse-append [] y = refl
reverse-append (x ∷ xs) y = ap (λ l. l ++ x ∷ []) (reverse-append xs y)

pub reverse-reverse : (xs : List ℕ) → reverse (reverse xs) ≡ xs
reverse-reverse [] = refl
reverse-reverse (x ∷ xs) = reverse-append (reverse xs) x ∙ ap (λ l. x ∷ l) (reverse-reverse xs)

pub to_bytes-IsByte : (w x : ℕ) → All IsByte (to_bytes w x)
unfolding to_bytes
to_bytes-IsByte zero x = omega arith
to_bytes-IsByte (suc w) x = (omega arith, to_bytes-IsByte w (x / 256))

append-IsByte : (xs : List ℕ) (y : ℕ) → All IsByte xs → y < 256 → All IsByte (xs ++ y ∷ [])
append-IsByte [] y a h = (h, omega arith)
append-IsByte (x ∷ xs) y a h = (a.0, append-IsByte xs y a.1 h)

pub reverse-IsByte : (xs : List ℕ) → All IsByte xs → All IsByte (reverse xs)
reverse-IsByte [] a = a
reverse-IsByte (x ∷ xs) a = append-IsByte (reverse xs) x (reverse-IsByte xs a.1) a.0

byte_digit : (b n : ℕ) → b < 256 → ((b + 256 * n) % 256 ≡ b) × ((b + 256 * n) / 256 ≡ n)
byte_digit b n h = (omega (arith, h), omega (arith, h))

pub to_bytes-from_bytes : (bs : List ℕ) → All IsByte bs → to_bytes (length bs) (from_bytes bs) ≡ bs
unfolding to_bytes from_bytes
to_bytes-from_bytes [] a = refl
to_bytes-from_bytes (b ∷ bs) a =
    ground (arith, a.0, to_bytes-from_bytes bs a.1, byte_digit b (from_bytes bs) a.0)

-- The number of values of `w` bytes.
abbrev pub range : ℕ → ℕ
range zero = 1
range (suc w) = 256 * range w

pub from_bytes-to_bytes : (w x : ℕ) → x < range w → from_bytes (to_bytes w x) ≡ x
unfolding to_bytes from_bytes
from_bytes-to_bytes zero x h = omega (arith, h)
from_bytes-to_bytes (suc w) x h = omega (arith, from_bytes-to_bytes w (x / 256) (omega (arith, h)))

pub from_bytes-range : (bs : List ℕ) → All IsByte bs → from_bytes bs < range (length bs)
unfolding from_bytes
from_bytes-range [] a = omega arith
from_bytes-range (b ∷ bs) a = omega (arith, a.0, from_bytes-range bs a.1)

-- byteswap stays in the type's range, stores the bytes in the opposite order, and is its own inverse
-- on the numbers of the type.
pub byteswap_lem :
    (w x : ℕ)
    → (byteswap w x < range w)
      × (to_bytes w (byteswap w x) ≡ reverse (to_bytes w x))
      × (x < range w → byteswap w (byteswap w x) ≡ x)
unfolding byteswap
byteswap_lem w x =
    let bs = reverse (to_bytes w x) in
    let a = reverse-IsByte (to_bytes w x) (to_bytes-IsByte w x) in
    let n : length bs ≡ w = length-reverse (to_bytes w x) ∙ length-to_bytes w x in
    let stored : to_bytes w (from_bytes bs) ≡ bs =
      subst (λ k. to_bytes k (from_bytes bs) ≡ bs) n (to_bytes-from_bytes bs a) in
    (
      subst (λ k. from_bytes bs < range k) n (from_bytes-range bs a),
      stored,
      λ h.
          ap (λ l. from_bytes (reverse l)) stored
          ∙ ap from_bytes (reverse-reverse (to_bytes w x))
          ∙ from_bytes-to_bytes w x h,
    )
