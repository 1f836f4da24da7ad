-- ===== src/State/Raw/Laws.antt =====
-- Ranges of an account's data after a write: what was written is read back, and a range that does
-- not meet it is unchanged.
use chainring_contracts.Base.{
  ℕ, ◌+◌, ◌≤◌, ◌≡◌, ◌⊎◌, inl, inr, refl, length, take, drop, le→leb, arith,
}
use chainring_contracts.Base.Bytes.{Bytes, overwrite}
use chainring_contracts.Base.Bytes.Overwrite.{
  length-overwrite, take-drop-overwrite, take-drop-overwrite_before, drop-overwrite_behind,
}
use chainring_contracts.Base.Outcome.{ok, panic}
use chainring_contracts.State.Raw.{slice, write_at}

pub slice-eq-ok :
    (off n : ℕ) (bs : Bytes) → off + n ≤ length bs → slice off n bs ≡ ok (take n (drop off bs))
unfolding slice
slice-eq-ok off n bs h = rw (le→leb _ _ h) refl

pub slice-eq-panic : (off n : ℕ) (bs : Bytes) → length bs + 1 ≤ off + n → slice off n bs ≡ panic
unfolding slice
slice-eq-panic off n bs h = ground arith

pub write_at-eq-ok :
    (off : ℕ) (new bs : Bytes)
    → off + length new ≤ length bs
    → write_at off new bs ≡ ok (overwrite off new bs)
unfolding write_at
write_at-eq-ok off new bs h = rw (le→leb _ _ h) refl

-- A write that succeeds lay within the data.
write_at_inv :
    (off : ℕ) (new bs : Bytes) {bs' : Bytes}
    → write_at off new bs ≡ ok bs'
    → (off + length new ≤ length bs) × (overwrite off new bs ≡ bs')
unfolding write_at
write_at_inv off new bs h = ground arith

module _ (off : ℕ) (new bs : Bytes) {bs' : Bytes} (written : write_at off new bs ≡ ok bs') where
  pub length-write_at : length bs' ≡ length bs
  length-write_at =
      let (fits, same) = write_at_inv off new bs written in
      rw (← same) (length-overwrite off new bs)

  pub slice-write_at_self : (n : ℕ) → length new ≡ n → slice off n bs' ≡ ok new
  slice-write_at_self n e =
      let (fits, same) = write_at_inv off new bs written in
      let room : off + n ≤ length (overwrite off new bs) =
        rw (length-overwrite off new bs, ← e) fits in
      let fits_n : off + n ≤ length bs = rw (← e) fits in
      rw
        (
          ← same,
          slice-eq-ok off n (overwrite off new bs) room,
          take-drop-overwrite off n new bs e fits_n,
        )
        refl

  pub slice-write_at_before : (m n : ℕ) → m + n ≤ off → slice m n bs' ≡ slice m n bs
  unfolding slice
  slice-write_at_before m n h =
      let (fits, same) = write_at_inv off new bs written in
      rw (← same, length-overwrite off new bs, take-drop-overwrite_before m n off new bs h) refl

  pub slice-write_at_behind : (m n : ℕ) → off + length new ≤ m → slice m n bs' ≡ slice m n bs
  unfolding slice
  slice-write_at_behind m n h =
      let (fits, same) = write_at_inv off new bs written in
      rw (← same, length-overwrite off new bs, drop-overwrite_behind m off new bs h) refl

  -- Two ranges that do not meet.
  pub slice-write_at_apart :
      (m n : ℕ) → (m + n ≤ off) ⊎ (off + length new ≤ m) → slice m n bs' ≡ slice m n bs
  slice-write_at_apart m n (inl before) = slice-write_at_before m n before
  slice-write_at_apart m n (inr behind) = slice-write_at_behind m n behind
