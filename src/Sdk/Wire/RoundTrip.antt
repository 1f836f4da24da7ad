-- ===== src/Sdk/Wire/RoundTrip.antt =====
-- What a parser finds at an offset of bytes that a serializer wrote.
use chainring_contracts.Base.{
  ℕ, zero, suc, ◌+◌, ◌*◌, ◌≤◌, ◌<◌, ◌≡◌, ◌∙◌, refl, sym, ap, true, some, List, [], ◌∷◌, ◌++◌,
  append_assoc, map, length, length-append, take, drop, take-append, drop-append, get_elem?, leb,
  le→leb, All, arith,
}
use chainring_contracts.Base.Bytes.{Bytes, to_le_bytes}
use chainring_contracts.Base.Outcome.{ok}
use chainring_contracts.State.Raw.{ProgramResult, slice}
use chainring_contracts.State.Raw.Laws.{slice-eq-ok}
use chainring_contracts.Sdk.Wire.{byte_at, tail_from, parse_times, serialize_each}

-- `x` stands in `bytes` at offset `off`.
pub record At (off : ℕ) (x bytes : Bytes) : Type 0 where
  pub before : Bytes
  pub behind : Bytes
  pub whole : bytes ≡ before ++ (x ++ behind)
  pub offset : length before ≡ off

pub At-start : (x rest : Bytes) → At 0 x (x ++ rest)
At-start x rest = record { before = []; behind = rest; whole = refl; offset = refl }

-- The two parts of what stands at an offset.
module _ {off : ℕ} (x y : Bytes) {bytes : Bytes} where
  pub At-left : At off (x ++ y) bytes → At off x bytes
  At-left a = record {
    before = a.before;
    behind = y ++ a.behind;
    whole = a.whole ∙ ap (λ r. a.before ++ r) (append_assoc x y a.behind);
    offset = a.offset;
  }

  pub At-right : At off (x ++ y) bytes → {next : ℕ} → off + length x ≡ next → At next y bytes
  At-right a e = record {
    before = a.before ++ x;
    behind = a.behind;
    whole =
        a.whole
        ∙ ap (λ r. a.before ++ r) (append_assoc x y a.behind)
        ∙ sym (append_assoc a.before x (y ++ a.behind));
    offset = omega (arith, length-append a.before x, a.offset, e);
  }

pub At-length : {off : ℕ} {x bytes : Bytes} → At off x bytes → off + length x ≤ length bytes
At-length {x = x} a =
    rw a.whole
      (omega (arith, length-append a.before (x ++ a.behind), length-append x a.behind, a.offset))

pub At-drop : {off : ℕ} {x bytes : Bytes} (a : At off x bytes) → drop off bytes ≡ x ++ a.behind
At-drop {off = off} {x = x} a = rw a.whole (drop-append off a.before (x ++ a.behind) a.offset)

pub slice-At :
    {off : ℕ} {x bytes : Bytes} (n : ℕ) → length x ≡ n → At off x bytes → slice off n bytes ≡ ok x
slice-At {off = off} {x = x} {bytes = bytes} n e a =
    let fits : off + n ≤ length bytes = omega (arith, At-length a, e) in
    slice-eq-ok off n bytes fits
    ∙ ap (λ r. ok (take n r)) (At-drop a)
    ∙ ap ok (take-append n x a.behind e)

pub tail_from-At :
    {off : ℕ} {x bytes : Bytes} (a : At off x bytes) → tail_from off bytes ≡ ok (x ++ a.behind)
unfolding tail_from
tail_from-At {off = off} {x = x} {bytes = bytes} a =
    let fits : leb off (length bytes) ≡ true = le→leb _ _ (omega (arith, At-length a)) in
    rw fits (ap ok (At-drop a))

get_elem-append :
    (i : ℕ) (before rest : Bytes) (b : ℕ)
    → length before ≡ i
    → get_elem? (before ++ b ∷ rest) i ≡ some b
get_elem-append zero [] rest b e = refl
get_elem-append zero (c ∷ before) rest b e = absurd (omega arith)
get_elem-append (suc i) [] rest b e = absurd (omega arith)
get_elem-append (suc i) (c ∷ before) rest b e = get_elem-append i before rest b (omega arith)

byte_at-get_elem : (i b : ℕ) (bytes : Bytes) → get_elem? bytes i ≡ some b → byte_at i bytes ≡ ok b
unfolding byte_at
byte_at-get_elem i b bytes h = rw (byte_at, h) refl

pub byte_at-At :
    {off b : ℕ} (rest : Bytes) {bytes : Bytes} → At off (b ∷ rest) bytes → byte_at off bytes ≡ ok b
byte_at-At {off = off} {b = b} rest {bytes = bytes} a =
    byte_at-get_elem off b bytes (
      ap (λ r. get_elem? r off) a.whole
      ∙ get_elem-append off a.before (rest ++ a.behind) b a.offset)

-- A count in one byte.
pub byte_at-count :
    {off n : ℕ} (rest : Bytes) {bytes : Bytes}
    → n < 256
    → At off (to_le_bytes 1 n ++ rest) bytes
    → byte_at off bytes ≡ ok n
unfolding to_le_bytes
byte_at-count {n = n} rest small a = byte_at-At rest a ∙ ap ok (omega (arith, small))

-- A loop over elements of one width, each of which its parser reads back in a normal form.
module _ {A : Type 0} (normal : A → A) (P : A → Type 0) (serialize : A → Bytes)
    (parse : Bytes → ℕ → ProgramResult A) (width : ℕ)
    (has_width : (a : A) → P a → length (serialize a) ≡ width)
    (reads : (a : A)
      → P a
      → (bytes : Bytes) (size : ℕ) → At size (serialize a) bytes
      → parse bytes size ≡ ok (normal a)) where
  pub parse_times-normal :
      (list : List A)
      → All P list
      → (bytes : Bytes) (size : ℕ) → At size (serialize_each serialize list) bytes
      → parse_times parse width (length list) bytes size ≡ ok (map normal list)
  unfolding parse_times serialize_each
  parse_times-normal [] all bytes size a = refl
  parse_times-normal (x ∷ rest) (holds, all) bytes size a =
      let next =
        At-right (serialize x) (serialize_each serialize rest) a
          (ap (λ w. size + w) (has_width x holds)) in
      rw
        (
          reads x holds bytes size (At-left (serialize x) (serialize_each serialize rest) a),
          parse_times-normal rest all bytes (size + width) next,
        )
        refl

module _ {A : Type 0} (P : A → Type 0) (serialize : A → Bytes) (width : ℕ)
    (has_width : (a : A) → P a → length (serialize a) ≡ width) where
  pub length-serialize_each :
      (list : List A) → All P list → length (serialize_each serialize list) ≡ length list * width
  unfolding serialize_each
  length-serialize_each [] all = omega arith
  length-serialize_each (x ∷ rest) (holds, all) = omega (
    arith,
    length-append (serialize x) (serialize_each serialize rest),
    has_width x holds,
    length-serialize_each rest all,
  )

map-id : {A : Type 0} (list : List A) → map (λ a. a) list ≡ list
map-id [] = refl
map-id (x ∷ rest) = ap (λ l. x ∷ l) (map-id rest)

-- The same where the parser reads back the element itself.
pub parse_times-serialize_each :
    {A : Type 0} (P : A → Type 0) (serialize : A → Bytes) (parse : Bytes → ℕ → ProgramResult A)
    (width : ℕ)
    → ((a : A) → P a → length (serialize a) ≡ width)
    → ((a : A)
        → P a
        → (bytes : Bytes) (size : ℕ) → At size (serialize a) bytes
        → parse bytes size ≡ ok a)
    → (list : List A) → All P list
    → (bytes : Bytes) (size : ℕ) → At size (serialize_each serialize list) bytes
    → parse_times parse width (length list) bytes size ≡ ok list
parse_times-serialize_each P serialize parse width has_width reads list all bytes size a =
    parse_times-normal (λ x. x) P serialize parse width has_width reads list all bytes size a
    ∙ ap ok (map-id list)

get_elem-within :
    (i : ℕ) (bytes : Bytes) → i < length bytes → (b : ℕ) × (get_elem? bytes i ≡ some b)
get_elem-within i [] h = absurd (omega arith)
get_elem-within zero (b ∷ bytes) h = (b, refl)
get_elem-within (suc i) (b ∷ bytes) h = get_elem-within i bytes (omega arith)

pub byte_at-within : (i : ℕ) (bytes : Bytes) → i < length bytes → (b : ℕ) × (byte_at i bytes ≡ ok b)
byte_at-within i bytes h =
    let (b, e) = get_elem-within i bytes h in (b, byte_at-get_elem i b bytes e)
