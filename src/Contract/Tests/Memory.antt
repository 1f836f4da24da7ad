-- ===== src/Contract/Tests/Memory.antt =====
-- The entry point at the host's memory for one account that is passed twice, and the heap.
use chainring_contracts.Base.{
  ℕ, ◌+◌, ◌≤◌, ◌≡◌, ◌↔◌, refl, true, List, [], ◌∷◌, ◌++◌, replicate, length, inl, All, arith,
}
use chainring_contracts.Base.Bytes.{Bytes, to_le_bytes, from_le_bytes}
use chainring_contracts.Base.Outcome.{ok, err, invalid_realloc}
use chainring_contracts.State.Raw.{slice}
use chainring_contracts.Sdk.Wire.{byte_at}
use chainring_contracts.Sdk.Entrypoint.{
  align_up, AccountInput, deserialize_account, gather, gather_times, Parsed, deserialize,
  entrypoint,
}
use chainring_contracts.Sdk.Entrypoint.Regions.{Laid, deserialize-Laid}
use chainring_contracts.Sdk.Entrypoint.Outcomes.{result_of, entrypoint_iff}
use chainring_contracts.Sdk.Heap.{Layout, heap, top, alloc_each}
use chainring_contracts.Sdk.Heap.Blocks.{
  room_for, InHeap, Apart, alloc_each-Apart, length-alloc_each,
}
use chainring_contracts.Sdk.Account.{Account, realloc}
use chainring_contracts.Sdk.Entrypoint.Regions.{region_end}
use chainring_contracts.Sdk.Entrypoint.Growth.{realloc_each, realloc_each-region_end}
use chainring_contracts.Contract.Dispatch.{process_instruction}
use chainring_contracts.Contract.Tests.{host}

-- The data has two bytes, so that 6 bytes of padding follow the room for growth.
abbrev memory : Bytes
memory =
    to_le_bytes 8 2
    ++ (255 ∷ 0 ∷ 0 ∷ 0 ∷ 0 ∷ 1 ∷ 1 ∷ 0 ∷ replicate 32 9)
    ++ to_le_bytes 8 2
    ++ to_le_bytes 8 2
    ++ (7 ∷ 8 ∷ replicate 10246 0)
    ++ replicate 32 1
    ++ replicate 36 2
    ++ replicate 4 0
    ++ replicate 8 0
    ++ to_le_bytes 8 1
    ++ (3 ∷ replicate 32 4)

abbrev parsed : Parsed
parsed = record {
  program_id = replicate 32 4;
  accounts = record {
    places = 0 ∷ 0 ∷ [];
    inputs =
        record {
          account = record {
            key = replicate 32 9;
            utxo = replicate 36 2;
            data_ = 7 ∷ 8 ∷ [];
            original_data_len = 2;
            is_signer = true;
            is_writable = true;
          };
          data_offset = 64;
        }
        ∷ [];
    offset = 10392;
  };
  instruction_data = 3 ∷ [];
}

parses : deserialize memory ≡ ok parsed
unfolding slice byte_at align_up deserialize_account gather gather_times deserialize to_le_bytes
    from_le_bytes
parses = refl

deserialize-Laid_example :
    (n : Bytes) × (slice 0 8 memory ≡ ok n) × Laid (from_le_bytes n) parsed.accounts
deserialize-Laid_example = deserialize-Laid memory parses

entrypoint_iff_example : (entrypoint (process_instruction host) memory ≡ ok 0) ↔ (
    (p : Parsed) × (deserialize memory ≡ ok p)
    × (result_of (process_instruction host) memory p ≡ ok tt))
entrypoint_iff_example = entrypoint_iff (process_instruction host) memory

abbrev layouts : List Layout
layouts =
    record { size = 24; align = 8 }
    ∷ record { size = 3; align = 1 }
    ∷ record { size = 100; align = 16 }
    ∷ []

alloc_each-Apart_example :
    All (InHeap heap) (alloc_each heap layouts 0) × Apart (alloc_each heap layouts 0)
alloc_each-Apart_example =
    alloc_each-Apart heap layouts 0 (omega arith, (omega arith, (omega arith, tt))) (inl refl)

room : heap.start + 8 + room_for layouts ≤ top heap 0
unfolding room_for top
room = omega arith

length-alloc_each_example : length (alloc_each heap layouts 0) ≡ 3
length-alloc_each_example =
    length-alloc_each heap layouts 0 (omega arith, (omega arith, (omega arith, tt))) room

abbrev input : AccountInput
input = record {
  account = record {
    key = replicate 32 9;
    utxo = replicate 36 2;
    data_ = 7 ∷ 8 ∷ [];
    original_data_len = 2;
    is_signer = true;
    is_writable = true;
  };
  data_offset = 64;
}

abbrev lens : List ℕ
lens = 100 ∷ 300 ∷ 200 ∷ []

abbrev grown : Account
grown = record input.account { data_ = 7 ∷ 8 ∷ replicate 198 0 }

grows : realloc_each lens input.account ≡ ok grown
unfolding realloc
grows = refl

-- Growth is measured from the length that the host noted, also when the data has grown.
refused : realloc_each (10242 ∷ 10243 ∷ []) input.account ≡ err invalid_realloc
unfolding realloc
refused = refl

realloc_each-region_end_example : input.data_offset + 200 ≤ region_end input
realloc_each-region_end_example = realloc_each-region_end lens input (omega arith) grows
