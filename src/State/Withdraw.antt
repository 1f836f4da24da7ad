-- ===== src/State/Withdraw.antt =====
-- `impl WithdrawState` and `impl RuneReceiverState` of state.rs, but for `initialize`:
-- Contract/Init.antt. The key of the program account is read and written as in a token account.
pub mod Laws
use chainring_contracts.Base.Bytes.{Bytes}
use chainring_contracts.Constants.{withdraw_hash_offset, empty_hash}
use chainring_contracts.Types.{Hash}
use chainring_contracts.State.Raw.{ProgramResult, write_at, hash_from_slice}

unfoldable pub get_hash : Bytes → ProgramResult Hash
get_hash = hash_from_slice withdraw_hash_offset

unfoldable pub set_hash : Hash → Bytes → ProgramResult Bytes
set_hash = write_at withdraw_hash_offset

unfoldable pub clear_hash : Bytes → ProgramResult Bytes
clear_hash = set_hash empty_hash
