-- ===== src/Sdk/Wire/Tests.antt =====
-- The round trips of the message format at concrete messages.
use chainring_contracts.Base.{
  ◌≡◌, refl, true, false, [], ◌∷◌, ◌++◌, replicate, All, arith, ℕ, ◌+◌, ◌-◌, ◌*◌, ◌/◌, ◌%◌, ◌^◌,
  ◌<◌, Option, none, some, ltb, if◌then◌else◌, length,
}
use chainring_contracts.Base.Bytes.{Bytes}
use chainring_contracts.Base.Outcome.{ok}
use chainring_contracts.Types.{Pubkey}
use chainring_contracts.Sdk.Transition.{txid, vout}
use chainring_contracts.Sdk.Wire.Keys.{AccountMeta}
use chainring_contracts.Sdk.Wire.Message.{
  Instruction, serialize_instruction, instruction_from_slice, Message, serialize_message,
  message_from_slice,
}
use chainring_contracts.Sdk.Wire.Transaction.{
  TransactionToSign, serialise_to_sign, to_sign_from_slice, RuntimeTransaction, serialize_runtime,
  runtime_from_slice,
}
use chainring_contracts.Sdk.Wire.Utxo.{
  create_account, system_from_slice, new_create_account_instruction,
}
use chainring_contracts.Sdk.Wire.Read.{IsMeta, IsInstruction, length-serialize_instruction}
use chainring_contracts.Sdk.Wire.Messages.{IsMessage, message_from_slice-serialize_message}
use chainring_contracts.Sdk.Wire.Signed.{
  IsRuntime, to_sign_from_slice-serialise_to_sign, runtime_from_slice-serialize_runtime,
}
use chainring_contracts.Codec.Io.Utf8.{from_utf8}
use chainring_contracts.Base.Bytes.{to_le_bytes}
use chainring_contracts.Sdk.Wire.{serialize_each}
use chainring_contracts.Sdk.Wire.Keys.{serialize_meta}
use chainring_contracts.Sdk.Wire.Processed.{
  ProcessedTransaction, failed, to_vec, from_vec, serialize_status,
}
use chainring_contracts.Sdk.Wire.Ids.{IsHex}
use chainring_contracts.Sdk.Wire.Results.{IsProcessed, wire, from_vec-to_vec}
use chainring_contracts.Sdk.Wire.System.{new_create_account_instruction_lem}

abbrev key : Pubkey
key = replicate 32 7

abbrev meta : AccountMeta
meta = record { pubkey = key; is_signer = true; is_writable = false }

abbrev instruction : Instruction
instruction = record { program_id = key; accounts = meta ∷ meta ∷ []; data_ = 5 ∷ 6 ∷ [] }

instruction_metas : All IsMeta instruction.accounts
instruction_metas = (refl, (refl, tt))

instruction-IsInstruction : IsInstruction instruction
instruction-IsInstruction = record {
  program_id = refl;
  metas = instruction_metas;
  accounts_fit = omega arith;
  fits = omega (arith, length-serialize_instruction instruction refl instruction_metas);
}

abbrev message : Message
message = record { signers = key ∷ []; instructions = instruction ∷ instruction ∷ [] }

message-IsMessage : IsMessage message
message-IsMessage = record {
  signers = (refl, tt);
  signers_fit = omega arith;
  instructions = (instruction-IsInstruction, (instruction-IsInstruction, tt));
  instructions_fit = omega arith;
}

message_from_slice-serialize_message_example :
    message_from_slice (serialize_message message ++ 9 ∷ []) ≡ ok message
message_from_slice-serialize_message_example =
    message_from_slice-serialize_message message (9 ∷ []) message-IsMessage

abbrev to_sign : TransactionToSign
to_sign = record {
  tx_bytes = 1 ∷ 2 ∷ 3 ∷ [];
  inputs_to_sign = record { index = 0; signer = key } ∷ record { index = 1; signer = key } ∷ [];
}

to_sign_from_slice-serialise_to_sign_example :
    to_sign_from_slice (serialise_to_sign to_sign ++ []) ≡ ok to_sign
to_sign_from_slice-serialise_to_sign_example =
    to_sign_from_slice-serialise_to_sign to_sign [] (record {
      tx_fits = omega arith;
      inputs = ((omega arith, refl), ((omega arith, refl), tt));
      inputs_fit = omega arith;
    })

abbrev runtime : RuntimeTransaction
runtime = record { version = 1; signatures = replicate 64 3 ∷ []; message = message }

runtime-IsRuntime : IsRuntime runtime
runtime-IsRuntime = record {
  version = omega arith;
  signatures = (refl, tt);
  signatures_fit = omega arith;
  message = message-IsMessage;
}

runtime_from_slice-serialize_runtime_example :
    runtime_from_slice (serialize_runtime runtime ++ []) ≡ ok runtime
runtime_from_slice-serialize_runtime_example =
    runtime_from_slice-serialize_runtime runtime [] (record {
      version = omega arith;
      signatures = (refl, tt);
      signatures_fit = omega arith;
      message = message-IsMessage;
    })

new_create_account_instruction_lem_example :
    (instruction_from_slice
        (serialize_instruction (new_create_account_instruction (replicate 32 1) 2 key) ++ 8 ∷ [])
      ≡ ok (new_create_account_instruction (replicate 32 1) 2 key))
    × (utxo : Bytes) × (system_from_slice
          (new_create_account_instruction (replicate 32 1) 2 key).data_
        ≡ ok (create_account utxo))
    × (txid utxo ≡ replicate 32 1)
    × (vout utxo ≡ 2)
new_create_account_instruction_lem_example =
    new_create_account_instruction_lem (replicate 32 1) 2 key (8 ∷ []) refl (omega arith) refl

-- Hexadecimal text, which is written in lower case and read in both.
abbrev digit : ℕ → ℕ
digit n = if ltb n 10 then 48 + n else 87 + n

abbrev hex_text : Bytes → Bytes
hex_text [] = []
hex_text (b ∷ rest) = digit (b / 16) ∷ digit (b % 16) ∷ hex_text rest

abbrev digit_value : ℕ → ℕ
digit_value c = if ltb c 58 then c - 48 else if ltb c 97 then c - 55 else c - 87

abbrev push_byte : ℕ → Option Bytes → Option Bytes
push_byte b none = none
push_byte b (some bytes) = some (b ∷ bytes)

abbrev hex_bytes : Bytes → Option Bytes
hex_bytes [] = some []
hex_bytes (c ∷ []) = none
hex_bytes (c ∷ d ∷ rest) = push_byte (16 * digit_value c + digit_value d) (hex_bytes rest)

abbrev id_text : Bytes
id_text = hex_text (replicate 32 171)

id_text-IsHex : IsHex hex_text hex_bytes id_text
id_text-IsHex = record { id = replicate 32 171; decoded = refl; width = refl }

-- The same id in upper case.
abbrev upper_text : Bytes
upper_text = 65 ∷ 66 ∷ hex_text (replicate 31 171)

upper_text-IsHex : IsHex hex_text hex_bytes upper_text
upper_text-IsHex = record { id = replicate 32 171; decoded = refl; width = refl }

abbrev result : ProcessedTransaction
result = record {
  runtime_transaction = runtime;
  status = failed (78 ∷ 111 ∷ []);
  bitcoin_txid = some id_text;
  accounts_tags = upper_text ∷ id_text ∷ [];
}

utf8 : from_utf8 (78 ∷ 111 ∷ []) ≡ true
unfolding from_utf8
utf8 = refl

result-IsProcessed : IsProcessed hex_text hex_bytes result
result-IsProcessed = record {
  runtime = runtime-IsRuntime;
  status = utf8;
  txid = id_text-IsHex;
  tags = (upper_text-IsHex, (id_text-IsHex, tt));
}

result_small : length (wire hex_text hex_bytes result ++ []) < 2 ^ 64
unfolding to_le_bytes serialize_each serialize_meta serialize_instruction serialize_message
    serialize_runtime serialize_status
result_small = omega arith

from_vec-to_vec_example :
    (bytes : Bytes) × (to_vec hex_text hex_bytes result ≡ ok bytes)
    × (from_vec hex_text hex_bytes (bytes ++ [])
        ≡ ok (record result { accounts_tags = id_text ∷ id_text ∷ [] }))
from_vec-to_vec_example =
    from_vec-to_vec hex_text hex_bytes result [] result-IsProcessed result_small
