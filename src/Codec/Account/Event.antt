-- ===== src/Codec/Account/Event.antt =====
-- An event takes its slot of 64 bytes, whatever its kind, and is read back from it.
use chainring_contracts.Base.{
  ◌-◌, ◌<◌, ◌≤◌, ◌≡◌, refl, length, append_assoc, length-append, length-replicate, arith, ◌++◌,
}
use chainring_contracts.Base.Bytes.{Bytes, length-to_le_bytes}
use chainring_contracts.Base.Outcome.{ok}
use chainring_contracts.Constants.{event_size}
use chainring_contracts.Types.{
  Event, FailedSettlement, FailedWithdrawal, failed_settlement, failed_withdrawal,
}
use chainring_contracts.Codec.Valid.{IsU8, IsU32, IsU64}
use chainring_contracts.Codec.Io.{Written, write_uint, write_padding, ◌>>=◌}
use chainring_contracts.Codec.Io.RoundTrip.{read_uint-write_uint, read_up_to-append}
use chainring_contracts.Codec.Account.Read.{
  decode_failed_settlement, decode_failed_withdrawal, decode_event_data, decode_event,
}
use chainring_contracts.Codec.Account.Write.{encode_event_fields, encode_event}

pub record IsFailedSettlement (e : FailedSettlement) : Type 0 where
  pub account_index : IsU8 e.account_index
  pub address_index : IsU32 e.address_index
  pub requested_amount : IsU64 e.requested_amount
  pub balance : IsU64 e.balance
  pub error_code : IsU32 e.error_code

pub record IsFailedWithdrawal (e : FailedWithdrawal) : Type 0 where
  pub account_index : IsU8 e.account_index
  pub address_index : IsU32 e.address_index
  pub fee_account_index : IsU8 e.fee_account_index
  pub fee_address_index : IsU32 e.fee_address_index
  pub requested_amount : IsU64 e.requested_amount
  pub fee_amount : IsU64 e.fee_amount
  pub balance : IsU64 e.balance
  pub balance_in_fee_token : IsU64 e.balance_in_fee_token
  pub error_code : IsU32 e.error_code

abbrev pub IsEvent : Event → Type 0
IsEvent (failed_settlement e) = IsFailedSettlement e
IsEvent (failed_withdrawal e) = IsFailedWithdrawal e

-- The bytes of a slot.
abbrev slot : Event → Bytes
slot e =
    (encode_event_fields e).bytes
    ++ (write_padding (event_size - (encode_event_fields e).count)).bytes

length-encode_event_fields :
    (e : Event)
    → (length (encode_event_fields e).bytes ≡ (encode_event_fields e).count)
      × ((encode_event_fields e).count ≤ 47)
unfolding encode_event_fields write_uint
length-encode_event_fields (failed_settlement e) =
    (simp (length-append, length-to_le_bytes) refl, omega arith)
length-encode_event_fields (failed_withdrawal e) =
    (simp (length-append, length-to_le_bytes) refl, omega arith)

length-slot : (e : Event) → length (slot e) ≡ event_size
unfolding write_padding
length-slot e = rw (length-append, length-replicate) (omega (arith, length-encode_event_fields e))

abbrev written : Event → Written
written e = record { bytes = slot e; count = event_size - (encode_event_fields e).count }

encode_event-eq-slot : (e : Event) → encode_event e ≡ ok (written e)
unfolding encode_event write_padding
encode_event-eq-slot e = ground (arith, length-encode_event_fields e)

decode_event_data-fields :
    (e : Event) (rest : Bytes)
    → IsEvent e
    → decode_event_data ((encode_event_fields e).bytes ++ rest) ≡ ok (e, rest)
unfolding decode_event_data encode_event_fields decode_failed_settlement decode_failed_withdrawal
decode_event_data-fields (failed_settlement e) rest h =
    let kind : 0 < 256 = omega arith in
    simp (
      ◌>>=◌, append_assoc, read_uint-write_uint, kind, h.account_index, h.address_index,
      h.requested_amount, h.balance, h.error_code,
    )
decode_event_data-fields (failed_withdrawal e) rest h =
    let kind : 1 < 256 = omega arith in
    simp (
      ◌>>=◌, append_assoc, read_uint-write_uint, kind, h.account_index, h.address_index,
      h.fee_account_index, h.fee_address_index, h.requested_amount, h.fee_amount, h.balance,
      h.balance_in_fee_token, h.error_code,
    )

decode_event-slot :
    (e : Event) (rest : Bytes) → IsEvent e → decode_event (slot e ++ rest) ≡ ok (e, rest)
unfolding decode_event
decode_event-slot e rest h = simp (
  ◌>>=◌,
  read_up_to-append event_size (slot e) rest (length-slot e),
  decode_event_data-fields e (write_padding (event_size - (encode_event_fields e).count)).bytes h,
)

-- Every event encodes, into exactly `EVENT_SIZE` bytes, so that the slots of `emit_event` line up;
-- and an event whose integers are within their widths is read back from its slot, whatever follows
-- it.
pub encode_event_fits :
    (e : Event) (rest : Bytes)
    → IsEvent e
    → (w : Written) × (encode_event e ≡ ok w)
      × (length w.bytes ≡ event_size)
      × (decode_event (w.bytes ++ rest) ≡ ok (e, rest))
encode_event_fits e rest h =
    (written e, encode_event-eq-slot e, length-slot e, decode_event-slot e rest h)
