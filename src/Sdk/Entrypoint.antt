-- ===== src/Sdk/Entrypoint.antt =====
-- `deserialize` and `entrypoint!` of arch/program/src/entrypoint.rs: how the host's memory becomes the
-- accounts of a run, and its outcome the code that the host sees.
--
-- The memory is the list of the bytes that the host has written. The code reads it unchecked; a read
-- behind its end, which is undefined there, panics here. `owner` and `is_executable`, which the
-- contract does not use, are read and dropped.
pub mod Regions
pub mod Outcomes
pub mod Growth
use chainring_contracts.Base.{
  ℕ, zero, suc, ◌+◌, ◌-◌, ◌*◌, ◌%◌, Bool, not, none, some, List, [], ◌∷◌, ◌++◌, length, get_elem?,
  map, ◌==◌, if◌then◌else◌,
}
use chainring_contracts.Base.Bytes.{Bytes, from_le_bytes}
use chainring_contracts.Base.Outcome.{ok, err, panic, ◌>>=◌}
use chainring_contracts.Types.{Pubkey}
use chainring_contracts.State.Raw.{ProgramResult, slice}
use chainring_contracts.Sdk.ErrorCode.{to_u64}
use chainring_contracts.Sdk.Account.{Account, Store, M, max_permitted_data_increase}
use chainring_contracts.Sdk.Wire.{byte_at}

abbrev pub non_dup_marker : ℕ
non_dup_marker = 255

abbrev pub bpf_align_of_u128 : ℕ
bpf_align_of_u128 = 8

-- `offset += (offset as *const u8).align_offset(BPF_ALIGN_OF_U128)`
unfoldable pub align_up : ℕ → ℕ
align_up offset = offset + (8 - offset % bpf_align_of_u128) % bpf_align_of_u128

-- An account, and the offset of its data.
pub record AccountInput : Type 0 where
  pub account : Account
  pub data_offset : ℕ

-- The part of the loop for an account that is no duplicate, with the offset behind its marker; the new
-- offset comes back beside the account.
unfoldable pub deserialize_account : Bytes → ℕ → ProgramResult (AccountInput × ℕ)
deserialize_account input offset = do
  is_signer ← byte_at (offset + 4) input
  is_writable ← byte_at (offset + 5) input
  is_executable ← byte_at (offset + 6) input
  key ← slice (offset + 7) 32 input
  original_data_len ← slice (offset + 39) 8 input
  data_len ← slice (offset + 47) 8 input
  data_ ← slice (offset + 55) (from_le_bytes data_len) input
  let end = align_up (offset + 55 + from_le_bytes data_len + max_permitted_data_increase)
  owner ← slice end 32 input
  utxo ← slice (end + 32) 36 input
  ok (
    record {
      account = record {
        key = key;
        utxo = utxo;
        data_ = data_;
        original_data_len = from_le_bytes original_data_len;
        is_signer = not (is_signer == 0);
        is_writable = not (is_writable == 0);
      };
      data_offset = offset + 55;
    },
    end + 72,
  )

-- What the loop has gathered: for each account its place, and the accounts by place.
pub record Gathered : Type 0 where
  pub places : List ℕ
  pub inputs : List AccountInput
  pub offset : ℕ

-- A duplicate is the place that stands at its index; its marker has 7 bytes of padding.
unfoldable pub gather : Bytes → Gathered → ProgramResult Gathered
gather input g = do
  dup_info ← byte_at g.offset input
  if dup_info == non_dup_marker
      then (deserialize_account input (g.offset + 1) >>= λ (a, next). ok (record {
        places = g.places ++ length g.inputs ∷ [];
        inputs = g.inputs ++ a ∷ [];
        offset = next;
      }))
      else elim (get_elem? g.places dup_info) [
        | none ↦ panic
        | some p ↦
            ok (record { places = g.places ++ p ∷ []; inputs = g.inputs; offset = g.offset + 8 })
      ]

-- `for _ in 0..num_accounts`
unfoldable pub gather_times : ℕ → Bytes → Gathered → ProgramResult Gathered
gather_times zero input g = ok g
gather_times (suc count) input g = gather input g >>= gather_times count input

pub record Parsed : Type 0 where
  pub program_id : Pubkey
  pub accounts : Gathered
  pub instruction_data : Bytes

unfoldable pub deserialize : Bytes → ProgramResult Parsed
deserialize input = do
  num_accounts ← slice 0 8 input
  g ←
      gather_times (from_le_bytes num_accounts) input
        (record { places = []; inputs = []; offset = 8 })
  instruction_data_len ← slice g.offset 8 input
  instruction_data ← slice (g.offset + 8) (from_le_bytes instruction_data_len) input
  program_id ← slice (g.offset + 8 + from_le_bytes instruction_data_len) 32 input
  ok (record { program_id = program_id; accounts = g; instruction_data = instruction_data })

-- The store of the accounts that have been read; no other place is used.
abbrev empty_account : Account
empty_account = record {
  key = [];
  utxo = [];
  data_ = [];
  original_data_len = 0;
  is_signer = Bool.false;
  is_writable = Bool.false;
}

abbrev pub store_of : List AccountInput → Store
store_of inputs p = elim (get_elem? inputs p) [ some a ↦ a.account | none ↦ empty_account ]

-- `SUCCESS`, or the code of the error. A panic gives no code.
abbrev pub code_of : ProgramResult (Unit {0}) → ProgramResult ℕ
code_of (ok _) = ok 0
code_of (err e) = ok (to_u64 e)
code_of panic = panic

module _ (process_instruction : Pubkey → List ℕ → Bytes → M (Unit {0})) where
  unfoldable pub entrypoint : Bytes → ProgramResult ℕ
  entrypoint input = do
    p ← deserialize input
    let run =
        process_instruction p.program_id p.accounts.places p.instruction_data
          (store_of p.accounts.inputs)
    code_of run.0
