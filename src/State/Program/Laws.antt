-- ===== src/State/Program/Laws.antt =====
-- The hashes and the events of a program account: what each setter stores is what the getters then
-- read, and a setter leaves the other fields as they are.
pub mod Events
use chainring_contracts.Base.{
  ◌∙◌, ◌==◌, Bool-cases, ℕ, ◌+◌, ◌≤◌, ◌≡◌, inl, inr, refl, length, arith,
}
use chainring_contracts.Base.Bytes.{Bytes, overwrite, to_le_bytes}
use chainring_contracts.Base.Outcome.{ProgramError, ok, err, ◌>>=◌, unwrap, passed}
use chainring_contracts.State.Raw.{ProgramResult, slice, write_at, hash_from_slice}
use chainring_contracts.State.Raw.Laws.{
  write_at-eq-ok, length-write_at, slice-write_at_self, slice-write_at_before, slice-write_at_apart,
}
use chainring_contracts.State.Program.{
  get_settlement_hash, set_settlement_hash, clear_settlement_hash, set_last_settlement_hash,
  get_events_count, clear_events, emit_event, event_offset,
}
use chainring_contracts.Types.{Event}
use chainring_contracts.Codec.Account.Write.{encode_event}
use chainring_contracts.Constants.{empty_hash, max_events, events_size_offset}

-- Everything in front of the settlement hash: the account's type, the withdraw account, the
-- addresses and the network.
abbrev pub SameHead : Bytes → Bytes → Type 0
SameHead bs bs' = slice 0 222 bs' ≡ slice 0 222 bs

-- A program account with room for its hashes and the count of its events.
abbrev pub HasHashes : Bytes → Type 0
HasHashes bs = 288 ≤ length bs

module _ (h bs : Bytes) (room : HasHashes bs) (size : length h ≡ 32) where
  -- Storing a settlement hash of 32 bytes succeeds in an account with room for the hashes; it is read
  -- back; the length, the count of the events, the last settlement hash and all in front of it stay.
  pub set_settlement_hash_lem :
      (bs' : Bytes) × (set_settlement_hash h bs ≡ ok bs')
      × (length bs' ≡ length bs)
      × (get_settlement_hash bs' ≡ ok h)
      × (get_events_count bs' ≡ get_events_count bs)
      × (slice 254 32 bs' ≡ slice 254 32 bs)
      × SameHead bs bs'
  unfolding set_settlement_hash get_settlement_hash get_events_count hash_from_slice
  set_settlement_hash_lem =
      let bs' = overwrite 222 h bs in
      let written : write_at 222 h bs ≡ ok bs' = write_at-eq-ok 222 h bs (rw size (omega arith)) in
      let apart = slice-write_at_apart 222 h bs written in
      (
        bs',
        written,
        length-write_at 222 h bs written,
        slice-write_at_self 222 h bs written 32 size,
        rw (apart 286 2 (inr (rw size (omega arith)))) refl,
        apart 254 32 (inr (rw size (omega arith))),
        apart 0 222 (inl (omega arith)),
      )

-- What a write of one of the hashes that succeeds has stored.
module _ (h bs : Bytes) {bs' : Bytes} (size : length h ≡ 32) where
  pub set_settlement_hash_inv :
      set_settlement_hash h bs ≡ ok bs'
      → (get_settlement_hash bs' ≡ ok h)
        × (slice 254 32 bs' ≡ slice 254 32 bs)
        × (get_events_count bs' ≡ get_events_count bs)
  unfolding set_settlement_hash get_settlement_hash hash_from_slice get_events_count
  set_settlement_hash_inv written = (
    slice-write_at_self 222 h bs written 32 size,
    slice-write_at_apart 222 h bs written 254 32 (inr (rw size (omega arith))),
    rw (slice-write_at_apart 222 h bs written 286 2 (inr (rw size (omega arith)))) refl,
  )

  pub set_last_settlement_hash_inv :
      set_last_settlement_hash h bs ≡ ok bs'
      → (slice 254 32 bs' ≡ ok h) × (get_settlement_hash bs' ≡ get_settlement_hash bs)
  unfolding set_last_settlement_hash get_settlement_hash hash_from_slice
  set_last_settlement_hash_inv written = (
    slice-write_at_self 254 h bs written 32 size,
    slice-write_at_apart 254 h bs written 222 32 (inl (omega arith)),
  )

-- A cleared hash is empty, and the last settlement hash stays.
pub clear_settlement_hash_inv :
    (bs : Bytes) {bs' : Bytes}
    → clear_settlement_hash bs ≡ ok bs'
    → (get_settlement_hash bs' ≡ ok empty_hash) × (slice 254 32 bs' ≡ slice 254 32 bs)
unfolding clear_settlement_hash
clear_settlement_hash_inv bs h =
    let (gone, kept, _) = set_settlement_hash_inv empty_hash bs refl h in (gone, kept)

-- The slots of the events and their count lie behind the two hashes.
behind_hashes :
    (off : ℕ) (new bs : Bytes) {bs' : Bytes}
    → 286 ≤ off
    → write_at off new bs ≡ ok bs'
    → slice 222 32 bs' ≡ slice 222 32 bs
behind_hashes off new bs h written =
    slice-write_at_before off new bs written 222 32 (omega (arith, h))

pub clear_events-keeps :
    (bs : Bytes) {bs' : Bytes} → clear_events bs ≡ ok bs' → slice 222 32 bs' ≡ slice 222 32 bs
unfolding clear_events
clear_events-keeps bs h = behind_hashes 286 (to_le_bytes 2 0) bs (omega arith) h

-- An event is stored behind the hashes of the program account.
pub emit_event-keeps :
    (event : Event) (bs : Bytes) {bs' : Bytes}
    → emit_event event bs ≡ ok bs'
    → slice 222 32 bs' ≡ slice 222 32 bs
unfolding emit_event
emit_event-keeps event bs {bs' = bs'} h =
    let (count, _, h1) = passed _ (get_events_count bs) h in
    elim (Bool-cases (count == max_events)) [
      | inl full ↦ absurd (refused (rw full at h1))
      | inr room ↦ stored count (rw room at h1)
    ]
  where
    refused : {e : ProgramError} → err e ≡ ok bs' → ⊥
    refused k = cc

    store : ℕ → ProgramResult Bytes
    store count = do
      encoded ← unwrap (encode_event event)
      written ← write_at (event_offset count) encoded.bytes bs
      write_at events_size_offset (to_le_bytes 2 (count + 1)) written

    stored : (count : ℕ) → store count ≡ ok bs' → slice 222 32 bs' ≡ slice 222 32 bs
    stored count k =
        let (encoded, _, k1) = passed _ (unwrap (encode_event event)) k in
        let (written, slot, k2) = passed _ (write_at (event_offset count) encoded.bytes bs) k1 in
        behind_hashes 286 (to_le_bytes 2 (count + 1)) written (omega arith) k2
        ∙ behind_hashes (event_offset count) encoded.bytes bs (omega arith) slot
