-- ===== src/Codec/Io/Utf8.antt =====
-- `String::from_utf8` and `read_to_string` accept exactly the well-formed UTF-8 of the Unicode
-- standard (its table of well-formed byte sequences), which Rust's `String` documents.
use chainring_contracts.Base.{
  ℕ, zero, suc, Option, none, some, ◌≡◌, refl, Bool, true, false, ◌&&◌, [], ◌∷◌, leb, if◌then◌else◌,
  ◌==◌,
}
use chainring_contracts.Base.Bytes.{Bytes}

abbrev in_range : ℕ → ℕ → ℕ → Bool
in_range lo hi b = leb lo b && leb b hi

-- How many bytes follow a first byte, and the range of the byte next to it: `none` for a byte that
-- cannot stand first.
abbrev opens : ℕ → Option (ℕ × ℕ × ℕ)
opens a =
    if leb a 0x7f
    then some (0, 0, 0)
    else if in_range 0xc2 0xdf a
    then some (1, 0x80, 0xbf)
    else if a == 0xe0
    then some (2, 0xa0, 0xbf)
    else if a == 0xed
    then some (2, 0x80, 0x9f)
    else if in_range 0xe1 0xef a
    then some (2, 0x80, 0xbf)
    else if a == 0xf0
    then some (3, 0x90, 0xbf)
    else if in_range 0xf1 0xf3 a
    then some (3, 0x80, 0xbf)
    else if a == 0xf4
    then some (3, 0x80, 0x8f)
    else none

-- `n` more bytes are wanted, the next of them from `lo` to `hi`.
scan : ℕ → ℕ → ℕ → Bytes → Bool
scan zero lo hi [] = true
scan (suc n) lo hi [] = false
scan zero lo hi (a ∷ bs) = elim (opens a) [ none ↦ false | some (n, l, h) ↦ scan n l h bs ]
scan (suc n) lo hi (b ∷ bs) = in_range lo hi b && scan n 0x80 0xbf bs

unfoldable pub from_utf8 : Bytes → Bool
unfolding scan
from_utf8 = scan 0 0 0

-- A test: "é€😀" is accepted, and an overlong or cut sequence is not.
from_utf8_samples :
    (from_utf8 (0xc3 ∷ 0xa9 ∷ 0xe2 ∷ 0x82 ∷ 0xac ∷ 0xf0 ∷ 0x9f ∷ 0x98 ∷ 0x80 ∷ []) ≡ true)
    × (from_utf8 (0xc0 ∷ 0x80 ∷ []) ≡ false)
    × (from_utf8 (0xe2 ∷ 0x82 ∷ []) ≡ false)
unfolding from_utf8
from_utf8_samples = (refl, refl, refl)
