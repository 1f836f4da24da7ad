-- ===== src/Contract/Validate/Indices.antt =====
-- Exactly which address indices pass `get_validated_index`.
use chainring_contracts.Base.{ℕ, ◌<◌, ◌≡◌, ◌∙◌, ◌↔◌, ap, ltb, ltb→lt, lt→ltb}
use chainring_contracts.Base.Bytes.{Bytes, bytes_eq, bytes_eq_iff, bytes_eq_refl}
use chainring_contracts.Base.Outcome.{ok, custom, guard, passed}
use chainring_contracts.Constants.{error_invalid_address_index, error_wallet_last4_mismatch}
use chainring_contracts.Types.{AddressIndex}
use chainring_contracts.State.Token.{get_num_balances, get_wallet_address_last4}
use chainring_contracts.Contract.Validate.{get_validated_index}
use chainring_contracts.Contract.Validate.Accounts.{guarded}

-- An address index is accepted, as itself, exactly when it is below the account's number of balances and
-- its four bytes are the last four of the address that is stored there.
pub get_validated_index_iff :
    (bs : Bytes) (a : AddressIndex) (i : ℕ)
    → (get_validated_index bs a ≡ ok i) ↔ (
        (n : ℕ) × (get_num_balances bs ≡ ok n)
        × (a.index < n)
        × (get_wallet_address_last4 a.index bs ≡ ok a.last4)
        × (a.index ≡ i))
unfolding get_validated_index
get_validated_index_iff bs a i = (
  λ h.
      let (n, counted, h1) = passed _ (get_num_balances bs) h in
      let (_, below, h2) =
        passed _ (guard (ltb a.index n) (custom error_invalid_address_index)) h1 in
      let (last4, found, h3) = passed _ (get_wallet_address_last4 a.index bs) h2 in
      let (_, matches, h4) =
        passed _ (guard (bytes_eq last4 a.last4) (custom error_wallet_last4_mismatch)) h3 in
      let same : a.index ≡ i = cc in
      (
        n,
        counted,
        ltb→lt _ _ (guarded (ltb a.index n) (custom error_invalid_address_index) below),
        found
            ∙ ap ok (
                (bytes_eq_iff last4 a.last4).0
                  (guarded (bytes_eq last4 a.last4) (custom error_wallet_last4_mismatch) matches)),
        same,
      ),
  λ (n, counted, below, found, same).
      rw (counted, lt→ltb _ _ below, found, bytes_eq_refl a.last4) (ap ok same),
)
