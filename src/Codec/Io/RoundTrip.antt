-- ===== src/Codec/Io/RoundTrip.antt =====
-- What a reader finds in the bytes of the matching writer, whatever follows them.
use chainring_contracts.Base.{
  ℕ, ◌^◌, ◌<◌, ◌≡◌, refl, true, List, [], ◌∷◌, ◌++◌, append_assoc, length, length-append,
  take-append, drop-append, All, arith, le→leb, leb,
}
use chainring_contracts.Base.Bytes.{
  Bytes, to_le_bytes, length-to_le_bytes, from_le_bytes-to_le_bytes,
}
use chainring_contracts.Base.Outcome.{ok}
use chainring_contracts.Codec.Io.{
  Codable, ◌>>=◌, read_exact, read_up_to, read_uint, read_string, read_times, read_vec, write_uint,
  write_all, write_string, write_each, write_vec,
}
use chainring_contracts.Codec.Io.Utf8.{from_utf8}

-- The reader takes exactly what the writer of a valid value wrote, and returns the value.
abbrev pub RoundTrips : {A : Type 0} → Codable A → (A → Type 0) → Type 0
RoundTrips {A} c P =
    (a : A) → P a → (rest : Bytes) → c.decode ((c.encode a).bytes ++ rest) ≡ ok (a, rest)

leb-length-append : (bs rest : Bytes) → leb (length bs) (length (bs ++ rest)) ≡ true
leb-length-append bs rest = le→leb _ _ (omega (arith, length-append bs rest))

pub read_exact-append :
    (n : ℕ) (bs rest : Bytes) → length bs ≡ n → read_exact n (bs ++ rest) ≡ ok (bs, rest)
unfolding read_exact
read_exact-append n bs rest h =
    let fits : leb n (length (bs ++ rest)) ≡ true = rw (← h) (leb-length-append bs rest) in
    rw (fits, take-append n bs rest h, drop-append n bs rest h) refl

pub read_up_to-append :
    (n : ℕ) (bs rest : Bytes) → length bs ≡ n → read_up_to n (bs ++ rest) ≡ ok (bs, rest)
unfolding read_up_to
read_up_to-append n bs rest h = rw (take-append n bs rest h, drop-append n bs rest h) refl

pub read_uint-write_uint :
    (k v : ℕ) (rest : Bytes)
    → v < 256 ^ k
    → read_uint k ((write_uint k v).bytes ++ rest) ≡ ok (v, rest)
unfolding read_uint write_uint
read_uint-write_uint k v rest h =
    rw
      (
        ◌>>=◌,
        read_exact-append k (to_le_bytes k v) rest (length-to_le_bytes k v),
        from_le_bytes-to_le_bytes k v h,
      )
      refl

pub read_exact-write_all :
    (n : ℕ) (bs rest : Bytes)
    → length bs ≡ n
    → read_exact n ((write_all bs).bytes ++ rest) ≡ ok (bs, rest)
unfolding write_all
read_exact-write_all = read_exact-append

pub read_up_to-write_all :
    (n : ℕ) (bs rest : Bytes)
    → length bs ≡ n
    → read_up_to n ((write_all bs).bytes ++ rest) ≡ ok (bs, rest)
unfolding write_all
read_up_to-write_all = read_up_to-append

abbrev pub IsString : Bytes → Type 0
IsString s = (length s < 65536) × (from_utf8 s ≡ true)

pub read_string-write_string :
    (s rest : Bytes) → IsString s → read_string ((write_string s).bytes ++ rest) ≡ ok (s, rest)
unfolding read_string write_string
read_string-write_string s rest h = simp (
  ◌>>=◌,
  append_assoc,
  read_uint-write_uint 2 (length s) ((write_all s).bytes ++ rest) h.0,
  read_up_to-write_all (length s) s rest refl,
  h.1,
)

module _ {A : Type 0} (c : Codable A) {P : A → Type 0} (law : RoundTrips c P) where
  pub read_times-write_each :
      (xs : List A) (rest : Bytes)
      → All P xs
      → read_times (length xs) c.decode ((write_each c.encode xs).bytes ++ rest) ≡ ok (xs, rest)
  unfolding read_times write_each
  read_times-write_each [] rest h = refl
  read_times-write_each (x ∷ xs) rest h = simp (
    ◌>>=◌,
    append_assoc,
    law x h.0 ((write_each c.encode xs).bytes ++ rest),
    read_times-write_each xs rest h.1,
  )

  -- A `Vec` of fewer than 2 ^ 16 valid elements is read back.
  pub read_vec-write_vec :
      (xs : List A) (rest : Bytes)
      → length xs < 65536
      → All P xs
      → read_vec ⦃c = c⦄ ((write_vec ⦃c = c⦄ xs).bytes ++ rest) ≡ ok (xs, rest)
  unfolding read_vec write_vec
  read_vec-write_vec xs rest short h = simp (
    ◌>>=◌,
    append_assoc,
    read_uint-write_uint 2 (length xs) ((write_each c.encode xs).bytes ++ rest) short,
    read_times-write_each xs rest h,
  )
