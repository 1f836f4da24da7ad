-- ===== src/State/Withdraw/Laws.antt =====
-- The hash of the withdraw account: what a write has stored.
use chainring_contracts.Base.{◌≡◌, refl, length}
use chainring_contracts.Base.Bytes.{Bytes}
use chainring_contracts.Base.Outcome.{ok}
use chainring_contracts.Constants.{withdraw_hash_offset, empty_hash}
use chainring_contracts.State.Raw.{hash_from_slice}
use chainring_contracts.State.Raw.Laws.{slice-write_at_self}
use chainring_contracts.State.Withdraw.{get_hash, set_hash, clear_hash}

pub set_hash_inv :
    (h bs : Bytes) {bs' : Bytes} → length h ≡ 32 → set_hash h bs ≡ ok bs' → get_hash bs' ≡ ok h
unfolding set_hash get_hash hash_from_slice
set_hash_inv h bs size written = slice-write_at_self withdraw_hash_offset h bs written 32 size

pub clear_hash_inv :
    (bs : Bytes) {bs' : Bytes} → clear_hash bs ≡ ok bs' → get_hash bs' ≡ ok empty_hash
unfolding clear_hash
clear_hash_inv bs written = set_hash_inv empty_hash bs refl written
