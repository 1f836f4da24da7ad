-- ===== src/State/Token/Balances.antt =====
-- The balances of a token account as a map from wallet indices to amounts: `impl Balance`. A write
-- of one balance changes that balance and nothing else that the contract reads.
use chainring_contracts.Base.{ℕ, ◌+◌, ◌^◌, ◌≤◌, ◌<◌, ◌≡◌, ◌≢◌, ◌⊎◌, inl, refl, ◌∙◌, length, arith}
use chainring_contracts.Base.Bytes.{
  Bytes, to_le_bytes, length-to_le_bytes, from_le_bytes-to_le_bytes,
}
use chainring_contracts.Base.Outcome.{ok}
use chainring_contracts.State.Raw.{
  slice, write_at, get_type, get_string, get_address, get_wallet_last4,
}
use chainring_contracts.State.Raw.Laws.{length-write_at, slice-write_at_self, slice-write_at_apart}
use chainring_contracts.State.Token.{
  get_num_balances, get_token_id, get_program_state_account_key, entry_offset, get_wallet_balance,
  set_wallet_balance, get_wallet_address, get_wallet_address_last4,
}

-- All that a token account holds but its amounts.
pub record SameEntries (bs bs' : Bytes) : Type 0 where
  pub size : length bs' ≡ length bs
  pub kind : get_type bs' ≡ get_type bs
  pub program_key : get_program_state_account_key bs' ≡ get_program_state_account_key bs
  pub token_id : get_token_id bs' ≡ get_token_id bs
  pub num_balances : get_num_balances bs' ≡ get_num_balances bs
  pub address : (j : ℕ) → get_wallet_address j bs' ≡ get_wallet_address j bs
  pub last4 : (j : ℕ) → get_wallet_address_last4 j bs' ≡ get_wallet_address_last4 j bs

-- All that a token account holds but the amount of entry `i`.
pub record SameBut (i : ℕ) (bs bs' : Bytes) : Type 0 where
  pub entries : SameEntries bs bs'
  pub others : (j : ℕ) → j ≢ i → get_wallet_balance j bs' ≡ get_wallet_balance j bs

abbrev pub amount_offset : ℕ → ℕ
amount_offset i = entry_offset i + 92

module _ (i v : ℕ) (bs : Bytes) {bs' : Bytes} (written : set_wallet_balance i v bs ≡ ok bs') where
  as_write : write_at (amount_offset i) (to_le_bytes 8 v) bs ≡ ok bs'
  unfolding set_wallet_balance
  as_write = written

  apart :
      (m n : ℕ)
      → (m + n ≤ amount_offset i) ⊎ (amount_offset i + 8 ≤ m)
      → slice m n bs' ≡ slice m n bs
  apart m n h =
      slice-write_at_apart (amount_offset i) (to_le_bytes 8 v) bs as_write m n
        (rw (length-to_le_bytes 8 v) h)

  entries_apart : (j : ℕ) → slice (entry_offset j) 92 bs' ≡ slice (entry_offset j) 92 bs
  entries_apart j = apart (entry_offset j) 92 (grind arith)

  same_entries : SameEntries bs bs'
  unfolding get_type get_program_state_account_key get_token_id get_num_balances get_wallet_address
      get_wallet_address_last4 get_string get_address get_wallet_last4
  same_entries = record {
    size = length-write_at (amount_offset i) (to_le_bytes 8 v) bs as_write;
    kind = rw (apart 0 1 (inl (omega arith))) refl;
    program_key = apart 5 32 (inl (omega arith));
    token_id = rw (apart 37 32 (inl (omega arith))) refl;
    num_balances = rw (apart 69 4 (inl (omega arith))) refl;
    address = λ j. rw (entries_apart j) refl;
    last4 = λ j. rw (entries_apart j) refl;
  }

  others_same : (j : ℕ) → j ≢ i → get_wallet_balance j bs' ≡ get_wallet_balance j bs
  unfolding get_wallet_balance
  others_same j ne =
      let h : (amount_offset j + 8 ≤ amount_offset i) ⊎ (amount_offset i + 8 ≤ amount_offset j) =
        grind arith in
      rw (apart (amount_offset j) 8 h) refl

  -- The rest of the account stays, whatever the amount.
  pub set_wallet_balance-keeps : SameBut i bs bs'
  set_wallet_balance-keeps = record { entries = same_entries; others = others_same }

  -- The amount that was written is read back, and nothing else has changed.
  pub set_wallet_balance-SameBut : v < 2 ^ 64 → (get_wallet_balance i bs' ≡ ok v) × SameBut i bs bs'
  unfolding get_wallet_balance
  set_wallet_balance-SameBut h =
      let stored =
        slice-write_at_self (amount_offset i) (to_le_bytes 8 v) bs as_write 8
          (length-to_le_bytes 8 v) in
      (rw (stored, from_le_bytes-to_le_bytes 8 v h) refl, set_wallet_balance-keeps)

pub SameEntries-refl : (bs : Bytes) → SameEntries bs bs
SameEntries-refl bs = record {
  size = refl;
  kind = refl;
  program_key = refl;
  token_id = refl;
  num_balances = refl;
  address = λ j. refl;
  last4 = λ j. refl;
}

pub SameEntries-trans :
    {as' bs cs : Bytes} → SameEntries as' bs → SameEntries bs cs → SameEntries as' cs
SameEntries-trans k l = record {
  size = l.size ∙ k.size;
  kind = l.kind ∙ k.kind;
  program_key = l.program_key ∙ k.program_key;
  token_id = l.token_id ∙ k.token_id;
  num_balances = l.num_balances ∙ k.num_balances;
  address = λ j. l.address j ∙ k.address j;
  last4 = λ j. l.last4 j ∙ k.last4 j;
}
