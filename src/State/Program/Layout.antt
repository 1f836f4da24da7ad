-- ===== src/State/Program/Layout.antt =====
-- The offsets of the accessors of the program account against the encoding of `ProgramState`.
use chainring_contracts.Base.{
  ℕ, zero, suc, ◌-◌, ◌^◌, ◌≤◌, ◌<◌, ◌≡◌, ◌≢◌, ◌∙◌, refl, sym, ap, true, false, [], ◌∷◌, ◌++◌,
  append-nil, length, length-append, length-replicate, replicate, leb, leb→le, le→leb, ◌==◌,
  Bool-cases, inl, inr, All, arith,
}
use chainring_contracts.Base.Bytes.{
  Bytes, to_le_bytes, length-to_le_bytes, from_le_bytes-to_le_bytes,
}
use chainring_contracts.Base.Outcome.{ok, passed}
use chainring_contracts.Constants.{network_type_offset, max_address_size}
use chainring_contracts.Types.{ProgramState, AccountType, NetworkType}
use chainring_contracts.Codec.Io.{
  IoResult, Written, encode, write_uint, write_all, write_padding, write_string_with_padding,
  until_zero, decode_from_slice,
}
use chainring_contracts.Codec.Io.Utf8.{from_utf8}
use chainring_contracts.Codec.Parts.{account_type_codable, network_type_codable}
use chainring_contracts.Codec.Parts.RoundTrip.{account_type-RoundTrips, network_type-RoundTrips}
use chainring_contracts.Codec.Account.Write.{encode_event, try_write_each, encode_program_state}
use chainring_contracts.State.Raw.{slice, get_type, get_string, get_address, hash_from_slice}
use chainring_contracts.State.Program.{
  get_withdraw_account_key, get_fee_account_address, get_program_change_address, get_network_type,
  get_settlement_hash, get_events_count,
}
use chainring_contracts.Sdk.Wire.RoundTrip.{
  At, At-start, At-left, At-right, At-length, At-drop, slice-At,
}

-- A text that padding with zeros leaves readable.
abbrev pub IsText : Bytes → Type 0
IsText s = All (λ b. b ≢ 0) s × (from_utf8 s ≡ true)

until_zero-padding : (s : Bytes) (n : ℕ) → All (λ b. b ≢ 0) s → until_zero (s ++ replicate n 0) ≡ s
unfolding until_zero
until_zero-padding [] zero all = refl
until_zero-padding [] (suc n) all = refl
until_zero-padding (b ∷ rest) n (ne, all) =
    let other : (b == 0) ≡ false = ground arith in
    rw other (ap (λ r. b ∷ r) (until_zero-padding rest n all))

write_string_with_padding_inv :
    (s : Bytes) (size : ℕ) {w : Written}
    → write_string_with_padding s size ≡ ok w
    → (w.bytes ≡ s ++ replicate (size - length s) 0) × (length w.bytes ≡ size)
unfolding write_string_with_padding write_all write_padding
write_string_with_padding_inv s size {w = w} h = elim (Bool-cases (leb (length s) size)) [
  | inr long ↦ absurd (cc (rw long at h))
  | inl fits ↦
      let padded = s ++ replicate (size - length s) 0 in
      let same : padded ≡ w.bytes = ap (bytes_of s) (rw fits at h) in
      let le : length s ≤ size = leb→le _ _ fits in
      (
        sym same,
        rw (← same) (
            omega (
              arith,
              length-append s (replicate (size - length s) 0),
              length-replicate {A = ℕ} (size - length s) 0,
              le,
            )),
      )
]
  where
    bytes_of : Bytes → IoResult Written → Bytes
    bytes_of other (ok w) = w.bytes
    bytes_of other _ = other

get_address-At :
    (off : ℕ) (s : Bytes) (w : Written) (bytes : Bytes)
    → IsText s
    → write_string_with_padding s max_address_size ≡ ok w
    → At off w.bytes bytes
    → get_address off bytes ≡ ok s
unfolding get_address get_string
get_address-At off s w bytes (nonzero, utf8) written a =
    let (padded, width) = write_string_with_padding_inv s max_address_size written in
    let text : until_zero w.bytes ≡ s =
      ap until_zero padded ∙ until_zero-padding s (max_address_size - length s) nonzero in
    rw (slice-At max_address_size width a, text, utf8) refl

-- The two types that are kept in one byte.
length-account_type : (t : AccountType) → length (encode t).bytes ≡ 1
unfolding account_type_codable write_uint to_le_bytes
length-account_type t = refl

length-network_type : (t : NetworkType) → length (encode t).bytes ≡ 1
unfolding network_type_codable write_uint to_le_bytes
length-network_type t = refl

decode-account_type :
    (t : AccountType) (rest : Bytes) → decode_from_slice ((encode t).bytes ++ rest) ≡ ok t
unfolding decode_from_slice
decode-account_type t rest = rw (decode_from_slice, account_type-RoundTrips t tt rest) refl

decode-network_type :
    (t : NetworkType) (rest : Bytes) → decode_from_slice ((encode t).bytes ++ rest) ≡ ok t
unfolding decode_from_slice
decode-network_type t rest = rw (decode_from_slice, network_type-RoundTrips t tt rest) refl

get_type-At :
    (t : AccountType) (bytes : Bytes) → At 0 (encode t).bytes bytes → get_type bytes ≡ ok t
unfolding get_type
get_type-At t bytes a =
    let decoded : decode_from_slice (encode t).bytes ≡ ok t =
      ap decode_from_slice (sym (append-nil (encode t).bytes)) ∙ decode-account_type t [] in
    rw (slice-At 1 (length-account_type t) a, decoded) refl

get_network_type-At :
    (t : NetworkType) (bytes : Bytes)
    → At network_type_offset (encode t).bytes bytes
    → get_network_type bytes ≡ ok t
unfolding get_network_type
get_network_type-At t bytes a =
    let fits : leb network_type_offset (length bytes) ≡ true =
      le→leb _ _ (omega (arith, At-length a)) in
    rw (fits, At-drop a, decode-network_type t a.behind) refl

abbrev bytes_of : IoResult Written → Bytes
bytes_of (ok w) = w.bytes
bytes_of _ = []

-- What the encoding of a program state must keep to: the widths of its keys and hashes, addresses that
-- are texts, and a count of events that fits in its two bytes.
pub record IsProgramState (p : ProgramState) : Type 0 where
  pub withdraw_account : length p.withdraw_account ≡ 32
  pub fee_account_address : IsText p.fee_account_address
  pub program_change_address : IsText p.program_change_address
  pub settlement_batch_hash : length p.settlement_batch_hash ≡ 32
  pub last_settlement_batch_hash : length p.last_settlement_batch_hash ≡ 32
  pub events : length p.events < 2 ^ 16

-- In the bytes of a program state that encodes with success, whatever follows them, each accessor reads
-- the field that it is named for; the last settlement hash, which the program never reads, stands
-- behind the settlement hash. Keys and hashes have 32 bytes, and addresses are UTF-8 without zeros.
pub encode_program_state-accessors :
    (p : ProgramState) (w : Written) (behind : Bytes)
    → IsProgramState p
    → encode_program_state p ≡ ok w
    → (get_type (w.bytes ++ behind) ≡ ok p.account_type)
      × (get_withdraw_account_key (w.bytes ++ behind) ≡ ok p.withdraw_account)
      × (get_fee_account_address (w.bytes ++ behind) ≡ ok p.fee_account_address)
      × (get_program_change_address (w.bytes ++ behind) ≡ ok p.program_change_address)
      × (get_network_type (w.bytes ++ behind) ≡ ok p.network_type)
      × (get_settlement_hash (w.bytes ++ behind) ≡ ok p.settlement_batch_hash)
      × (slice 254 32 (w.bytes ++ behind) ≡ ok p.last_settlement_batch_hash)
      × (get_events_count (w.bytes ++ behind) ≡ ok (length p.events))
unfolding encode_program_state write_uint write_all get_withdraw_account_key get_fee_account_address
    get_program_change_address get_settlement_hash get_events_count hash_from_slice
encode_program_state-accessors p w behind is h =
    let (fee, fee_ok, h1) =
      passed _ (write_string_with_padding p.fee_account_address max_address_size) h in
    let (change, change_ok, h2) =
      passed _ (write_string_with_padding p.program_change_address max_address_size) h1 in
    let (events, _, h3) = passed _ (try_write_each encode_event p.events) h2 in
    let (_, fee_width) =
      write_string_with_padding_inv p.fee_account_address max_address_size fee_ok in
    let (_, change_width) =
      write_string_with_padding_inv p.program_change_address max_address_size change_ok in
    let type_bytes = (encode p.account_type).bytes in
    let version = to_le_bytes 4 p.version in
    let network = (encode p.network_type).bytes in
    let count = to_le_bytes 2 (length p.events) in
    let r8 = count ++ events.bytes in
    let r7 = p.last_settlement_batch_hash ++ r8 in
    let r6 = p.settlement_batch_hash ++ r7 in
    let r5 = network ++ r6 in
    let r4 = change.bytes ++ r5 in
    let r3 = fee.bytes ++ r4 in
    let r2 = p.withdraw_account ++ r3 in
    let r1 = version ++ r2 in
    let same : type_bytes ++ r1 ≡ w.bytes = ap bytes_of h3 in
    let bytes = w.bytes ++ behind in
    let a0 : At 0 (type_bytes ++ r1) bytes = rw same (At-start w.bytes behind) in
    let a1 =
      At-right type_bytes r1 a0 {next = 1} (omega (arith, length-account_type p.account_type)) in
    let a2 = At-right version r2 a1 {next = 5} (omega (arith, length-to_le_bytes 4 p.version)) in
    let a3 = At-right p.withdraw_account r3 a2 {next = 37} (omega (arith, is.withdraw_account)) in
    let a4 = At-right fee.bytes r4 a3 {next = 129} (omega (arith, fee_width)) in
    let a5 = At-right change.bytes r5 a4 {next = 221} (omega (arith, change_width)) in
    let a6 =
      At-right network r6 a5 {next = 222} (omega (arith, length-network_type p.network_type)) in
    let a7 =
      At-right p.settlement_batch_hash r7 a6 {next = 254}
        (omega (arith, is.settlement_batch_hash)) in
    let a8 =
      At-right p.last_settlement_batch_hash r8 a7 {next = 286}
        (omega (arith, is.last_settlement_batch_hash)) in
    let counted = length-to_le_bytes 2 (length p.events) in
    (
      get_type-At p.account_type bytes (At-left type_bytes r1 a0),
      slice-At 32 is.withdraw_account (At-left p.withdraw_account r3 a2),
      get_address-At 37 p.fee_account_address fee bytes is.fee_account_address fee_ok
          (At-left fee.bytes r4 a3),
      get_address-At 129 p.program_change_address change bytes is.program_change_address change_ok
          (At-left change.bytes r5 a4),
      get_network_type-At p.network_type bytes (At-left network r6 a5),
      slice-At 32 is.settlement_batch_hash (At-left p.settlement_batch_hash r7 a6),
      slice-At 32 is.last_settlement_batch_hash (At-left p.last_settlement_batch_hash r8 a7),
      rw (slice-At 2 counted (At-left count events.bytes a8))
          (ap ok (from_le_bytes-to_le_bytes 2 (length p.events) (omega (arith, is.events)))),
    )
