-- ===== src/Contract/Validate/Accounts.antt =====
-- Exactly which accounts pass `validate_account`.
use chainring_contracts.Base.{
  ℕ, zero, suc, ◌≡◌, ◌∙◌, ◌↔◌, refl, sym, ap, Bool, true, false, ◌&&◌, some, List, [], ◌∷◌, length,
  leb, Bool-cases, inl, inr, arith,
}
use chainring_contracts.Base.Bytes.{bytes_eq, bytes_eq_iff, bytes_eq_refl}
use chainring_contracts.Base.Outcome.{ok, custom, guard, passed}
use chainring_contracts.Constants.{
  error_invalid_account_flags, error_invalid_account_type, error_state_account_mismatch,
}
use chainring_contracts.Types.{AccountType}
use chainring_contracts.State.Raw.{get_type}
use chainring_contracts.Sdk.Account.{Store, account_at}
use chainring_contracts.Contract.Validate.{
  bool_eq, account_type_eq, related_key, validate_related, validate_type, validate_account,
}

-- The account at the index has the flags, the type, and the key of the related account.
record Valid (accounts : List ℕ) (index : ℕ) (is_signer is_writable : Bool) (t : AccountType)
    (related : ℕ) (s : Store) : Type 0 where
  place : ℕ
  related_place : ℕ
  located : account_at accounts index ≡ ok place
  related_located : account_at accounts related ≡ ok related_place
  signer : (s place).is_signer ≡ is_signer
  writable : (s place).is_writable ≡ is_writable
  typed : get_type (s place).data_ ≡ ok t
  belongs : related_key t (s place).data_ ≡ ok (s related_place).key

pub guarded : {E : Type 0} (test : Bool) (failure : E) → guard test failure ≡ ok tt → test ≡ true
guarded true failure h = refl
guarded false failure h = absurd cc

bool_eq→eq : (a b : Bool) → bool_eq a b ≡ true → a ≡ b
bool_eq→eq true b h = sym h
bool_eq→eq false true h = absurd cc
bool_eq→eq false false h = refl

bool_eq_refl : (a : Bool) → bool_eq a a ≡ true
bool_eq_refl true = refl
bool_eq_refl false = refl

both : (a b : Bool) → (a && b) ≡ true → (a ≡ true) × (b ≡ true)
both true b h = (refl, h)
both false b h = absurd cc

account_type_eq→eq : (a b : AccountType) → account_type_eq a b ≡ true → a ≡ b
unfolding account_type_eq
account_type_eq→eq AccountType.program AccountType.program h = refl
account_type_eq→eq AccountType.token AccountType.token h = refl
account_type_eq→eq AccountType.withdraw AccountType.withdraw h = refl
account_type_eq→eq AccountType.rune_receiver AccountType.rune_receiver h = refl
account_type_eq→eq AccountType.unknown AccountType.unknown h = refl
account_type_eq→eq _ _ h = absurd cc

account_type_eq_refl : (a : AccountType) → account_type_eq a a ≡ true
unfolding account_type_eq
account_type_eq_refl AccountType.program = refl
account_type_eq_refl AccountType.token = refl
account_type_eq_refl AccountType.withdraw = refl
account_type_eq_refl AccountType.rune_receiver = refl
account_type_eq_refl AccountType.unknown = refl

within :
    (accounts : List ℕ) (index : ℕ) {p : ℕ}
    → account_at accounts index ≡ ok p
    → leb (length accounts) index ≡ false
within [] index h = absurd cc
within (q ∷ rest) zero h = ground arith
within (q ∷ rest) (suc index) h = ground (arith, within rest index h)

module _ (accounts : List ℕ) (index : ℕ) (is_signer is_writable : Bool) (t : AccountType)
    (related : ℕ) (s : Store) where
  passes-Valid :
      validate_account accounts index is_signer is_writable (some t) (some related) s ≡ ok tt
      → Valid accounts index is_signer is_writable t related s
  unfolding validate_account validate_type validate_related
  passes-Valid h = elim (Bool-cases (leb (length accounts) index)) [
    | inl out ↦ absurd (cc (rw out at h))
    | inr inside ↦
        let (p, located, h1) = passed _ (account_at accounts index) (rw inside at h) in
        let flags = bool_eq (s p).is_signer is_signer && bool_eq (s p).is_writable is_writable in
        let (_, flagged, h2) = passed _ (guard flags (custom error_invalid_account_flags)) h1 in
        let (signs, writes) =
          both _ _ (guarded flags (custom error_invalid_account_flags) flagged) in
        let (kind, typed, h3) = passed _ (get_type (s p).data_) h2 in
        let (_, same_type, h4) =
          passed _ (guard (account_type_eq kind t) (custom error_invalid_account_type)) h3 in
        let (key, owned, h5) = passed _ (related_key t (s p).data_) h4 in
        let (q, related_located, h6) = passed _ (account_at accounts related) h5 in
        record {
          place = p;
          related_place = q;
          located = located;
          related_located = related_located;
          signer = bool_eq→eq _ _ signs;
          writable = bool_eq→eq _ _ writes;
          typed =
              typed
              ∙ ap ok (
                  account_type_eq→eq kind t (
                    guarded (account_type_eq kind t) (custom error_invalid_account_type)
                      same_type));
          belongs =
              owned
              ∙ ap ok (
                  (bytes_eq_iff key (s q).key).0
                    (guarded (bytes_eq key (s q).key) (custom error_state_account_mismatch) h6));
        }
  ]

  Valid-passes :
      Valid accounts index is_signer is_writable t related s
      → validate_account accounts index is_signer is_writable (some t) (some related) s ≡ ok tt
  unfolding validate_account validate_type validate_related
  Valid-passes v =
      rw
        (
          within accounts index v.located,
          v.located,
          v.signer,
          v.writable,
          bool_eq_refl is_signer,
          bool_eq_refl is_writable,
          v.typed,
          account_type_eq_refl t,
          v.belongs,
          v.related_located,
          bytes_eq_refl (s v.related_place).key,
        )
        refl

  -- An account passes the check exactly when its index and that of the related account are in range,
  -- its flags are the given ones, its data has the given type, and the key that it stores for the
  -- related account is the key of that account.
  pub validate_account_iff :
      (validate_account accounts index is_signer is_writable (some t) (some related) s ≡ ok tt) ↔ (
        (p : ℕ) × (q : ℕ) × (account_at accounts index ≡ ok p)
        × (account_at accounts related ≡ ok q)
        × ((s p).is_signer ≡ is_signer)
        × ((s p).is_writable ≡ is_writable)
        × (get_type (s p).data_ ≡ ok t)
        × (related_key t (s p).data_ ≡ ok (s q).key))
  validate_account_iff = (
    λ h.
        let v = passes-Valid h in
        (
          v.place, v.related_place, v.located, v.related_located, v.signer, v.writable, v.typed,
          v.belongs,
        ),
    λ (p, q, located, related_located, signer, writable, typed, belongs). Valid-passes (record {
      place = p;
      related_place = q;
      located = located;
      related_located = related_located;
      signer = signer;
      writable = writable;
      typed = typed;
      belongs = belongs;
    }),
  )
