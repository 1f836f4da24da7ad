-- ===== src/State/Tests.antt =====
-- Theorems about account state, at a token account with two entries and at a program account.
use chainring_contracts.Base.{ℕ, ◌-◌, ◌≤◌, ◌<◌, ◌≡◌, ◌⊎◌, refl, ◌++◌, length, replicate, arith}
use chainring_contracts.Base.Bytes.{Bytes, to_le_bytes, from_le_bytes, overwrite}
use chainring_contracts.Base.Outcome.{ok, err, custom}
use chainring_contracts.State.Raw.{slice, write_at}
use chainring_contracts.State.Token.{
  get_wallet_balance, set_wallet_balance, increment_wallet_balance, decrement_wallet_balance,
}
use chainring_contracts.State.Token.Balances.{SameBut, set_wallet_balance-SameBut}
use chainring_contracts.State.Token.Adjust.{
  Stores, increment_wallet_balance_lem, decrement_wallet_balance_lem,
}
use chainring_contracts.State.Program.{
  get_settlement_hash, set_settlement_hash, get_events_count, emit_event,
}
use chainring_contracts.State.Program.Laws.Events.{Appended, emit_event_branches}
use chainring_contracts.Constants.{max_events}
use chainring_contracts.Types.{Event, failed_settlement}
use chainring_contracts.State.Program.Laws.{SameHead, set_settlement_hash_lem}

-- The header is zero; entry 0 holds 5 and entry 1 holds 700.
abbrev two_entries : Bytes
two_entries =
    replicate 73 0 ++ replicate 92 0 ++ to_le_bytes 8 5 ++ replicate 92 0 ++ to_le_bytes 8 700

abbrev after_write : ℕ → Bytes
after_write v =
    replicate 73 0 ++ replicate 92 0 ++ to_le_bytes 8 5 ++ replicate 92 0 ++ to_le_bytes 8 v

held : get_wallet_balance 1 two_entries ≡ ok 700
unfolding get_wallet_balance slice to_le_bytes from_le_bytes
held = refl

written : set_wallet_balance 1 9 two_entries ≡ ok (after_write 9)
unfolding set_wallet_balance write_at to_le_bytes overwrite
written = refl

set_wallet_balance-SameBut_example :
    (get_wallet_balance 1 (after_write 9) ≡ ok 9) × SameBut 1 two_entries (after_write 9)
set_wallet_balance-SameBut_example =
    set_wallet_balance-SameBut 1 9 two_entries written (omega arith)

increment_wallet_balance_lem_example :
    (bs : Bytes) × (increment_wallet_balance 1 50 two_entries ≡ ok bs) × Stores 1 750 two_entries bs
increment_wallet_balance_lem_example =
    increment_wallet_balance_lem 1 700 50 two_entries held (omega arith)

decrement_wallet_balance_lem_example :
    ((701 ≤ 700)
      × (bs : Bytes) × (decrement_wallet_balance 1 701 two_entries ≡ ok bs)
      × Stores 1 (700 - 701) two_entries bs)
    ⊎ ((700 < 701) × (decrement_wallet_balance 1 701 two_entries ≡ err (custom 603)))
decrement_wallet_balance_lem_example =
    decrement_wallet_balance_lem 1 700 701 two_entries held (omega arith)

set_settlement_hash_lem_example :
    (bs : Bytes) × (set_settlement_hash (replicate 32 7) (replicate 288 0) ≡ ok bs)
    × (length bs ≡ 288)
    × (get_settlement_hash bs ≡ ok (replicate 32 7))
    × (get_events_count bs ≡ get_events_count (replicate 288 0))
    × (slice 254 32 bs ≡ slice 254 32 (replicate 288 0))
    × SameHead (replicate 288 0) bs
set_settlement_hash_lem_example =
    set_settlement_hash_lem (replicate 32 7) (replicate 288 0) (omega arith) refl

abbrev shortfall : Event
shortfall = failed_settlement (record {
  account_index = 2;
  address_index = 5;
  requested_amount = 100;
  balance = 40;
  error_code = 603;
})

no_events : get_events_count (replicate 6688 0) ≡ ok 0
unfolding get_events_count slice from_le_bytes
no_events = refl

emit_event_branches_example :
    ((0 ≡ max_events) × (emit_event shortfall (replicate 6688 0) ≡ err (custom 614)))
    ⊎ ((0 < 100)
        × (bs : Bytes) × (emit_event shortfall (replicate 6688 0) ≡ ok bs)
        × Appended shortfall 0 (replicate 6688 0) bs)
emit_event_branches_example =
    emit_event_branches shortfall (replicate 6688 0) 0 no_events (omega arith) (omega arith)
      (omega arith)
