-- ===== src/Sdk/Entrypoint/Regions.antt =====
-- Which memory belongs to which account of a run.
use chainring_contracts.Base.{
  ℕ, zero, suc, ◌+◌, ◌≤◌, ◌<◌, ◌≡◌, refl, ap, some, List, [], ◌∷◌, ◌++◌, length, length-append, leb,
  leb→le, take, drop, length-take_le, length-drop, get_elem?, ◌==◌, Bool-cases, Option-cases, inl,
  inr, All, arith,
}
use chainring_contracts.Base.Bytes.{Bytes, from_le_bytes}
use chainring_contracts.Base.Outcome.{ok, passed}
use chainring_contracts.State.Raw.{ProgramResult, slice}
use chainring_contracts.Sdk.Account.{max_permitted_data_increase}
use chainring_contracts.Sdk.Wire.{byte_at}
use chainring_contracts.Sdk.Entrypoint.{
  non_dup_marker, align_up, AccountInput, deserialize_account, Gathered, gather, gather_times,
  Parsed, deserialize,
}

-- The end of the memory that an account may grow into.
abbrev pub region_end : AccountInput → ℕ
region_end a = a.data_offset + length a.account.data_ + max_permitted_data_increase

-- The regions of the accounts, one behind the other, between two offsets.
abbrev pub Regions : ℕ → List AccountInput → ℕ → Type 0
Regions from [] to = from ≤ to
Regions from (a ∷ rest) to = (from ≤ a.data_offset) × Regions (region_end a) rest to

Regions-le :
    {to to' : ℕ} (list : List AccountInput) (from : ℕ)
    → to ≤ to'
    → Regions from list to
    → Regions from list to'
Regions-le [] from le r = omega (arith, le, r)
Regions-le (a ∷ rest) from le (first, r) = (first, Regions-le rest (region_end a) le r)

Regions-append :
    {mid to : ℕ} (list : List AccountInput) (a : AccountInput) (from : ℕ)
    → Regions from list mid
    → mid ≤ a.data_offset
    → region_end a ≤ to
    → Regions from (list ++ a ∷ []) to
Regions-append [] a from r le end = (omega (arith, r, le), end)
Regions-append (b ∷ rest) a from (first, r) le end =
    (first, Regions-append rest a (region_end b) r le end)

module _ {A : Type 0} (P : A → Type 0) where
  All-append : (list : List A) (x : A) → All P list → P x → All P (list ++ x ∷ [])
  All-append [] x all h = (h, tt)
  All-append (y ∷ rest) x (k, all) h = (k, All-append rest x all h)

  All-get_elem : (list : List A) (i : ℕ) {x : A} → All P list → get_elem? list i ≡ some x → P x
  All-get_elem [] i all h = absurd cc
  All-get_elem (y ∷ rest) zero {x = x} (k, all) h = let same : y ≡ x = cc in rw (← same) k
  All-get_elem (y ∷ rest) (suc i) (k, all) h = All-get_elem rest i all h

All-more : {m n : ℕ} (list : List ℕ) → m ≤ n → All (λ p. p < m) list → All (λ p. p < n) list
All-more [] le all = tt
All-more (p ∷ rest) le (h, all) = (omega (arith, h, le), All-more rest le all)

-- What the loop keeps: its places are of accounts that it has read, whose regions end in front of
-- its offset.
pub record Laid (count : ℕ) (g : Gathered) : Type 0 where
  pub counted : length g.places ≡ count
  pub places : All (λ p. p < length g.inputs) g.places
  pub regions : Regions 8 g.inputs g.offset

align_up-le : (offset : ℕ) → offset ≤ align_up offset
unfolding align_up
align_up-le offset = omega arith

length-slice : (off n : ℕ) (bs : Bytes) {x : Bytes} → slice off n bs ≡ ok x → length x ≡ n
unfolding slice
length-slice off n bs {x = x} h = elim (Bool-cases (leb (off + n) (length bs))) [
  | inl fits ↦
      let same : take n (drop off bs) ≡ x = cc (rw fits at h) in
      let le : off + n ≤ length bs = leb→le _ _ fits in
      rw (← same) (length-take_le n (drop off bs) (omega (arith, length-drop off bs, le)))
  | inr short ↦ absurd (cc (rw short at h))
]

-- Parts of what an account is read as.
abbrev offset_of : ProgramResult (AccountInput × ℕ) → ℕ
offset_of (ok (a, next)) = a.data_offset
offset_of _ = 0

abbrev length_of : ProgramResult (AccountInput × ℕ) → ℕ
length_of (ok (a, next)) = length a.account.data_
length_of _ = 0

abbrev next_of : ProgramResult (AccountInput × ℕ) → ℕ
next_of (ok (a, next)) = next
next_of _ = 0

deserialize_account_inv :
    (input : Bytes) (offset : ℕ) {a : AccountInput} {next : ℕ}
    → deserialize_account input offset ≡ ok (a, next)
    → (offset ≤ a.data_offset) × (region_end a ≤ next)
unfolding deserialize_account
deserialize_account_inv input offset {a = a} {next = next} h =
    let (_, _, h1) = passed _ (byte_at (offset + 4) input) h in
    let (_, _, h2) = passed _ (byte_at (offset + 5) input) h1 in
    let (_, _, h3) = passed _ (byte_at (offset + 6) input) h2 in
    let (_, _, h4) = passed _ (slice (offset + 7) 32 input) h3 in
    let (_, _, h5) = passed _ (slice (offset + 39) 8 input) h4 in
    let (len, _, h6) = passed _ (slice (offset + 47) 8 input) h5 in
    let (data_, found, h7) = passed _ (slice (offset + 55) (from_le_bytes len) input) h6 in
    let end = align_up (offset + 55 + from_le_bytes len + max_permitted_data_increase) in
    let (_, _, h8) = passed _ (slice end 32 input) h7 in
    let (_, _, h9) = passed _ (slice (end + 32) 36 input) h8 in
    let at_offset : offset + 55 ≡ a.data_offset = ap offset_of h9 in
    let at_length : length data_ ≡ length a.account.data_ = ap length_of h9 in
    let at_next : end + 72 ≡ next = ap next_of h9 in
    let size = length-slice (offset + 55) (from_le_bytes len) input found in
    (
      omega (arith, at_offset),
      omega (
        arith,
        at_offset,
        at_length,
        at_next,
        size,
        align_up-le (offset + 55 + from_le_bytes len + max_permitted_data_increase),
      ),
    )

gather-Laid :
    (input : Bytes) (count : ℕ) (g : Gathered) {g' : Gathered}
    → Laid count g
    → gather input g ≡ ok g'
    → Laid (count + 1) g'
unfolding gather
gather-Laid input count g {g' = g'} laid h =
    let (dup_info, _, h1) = passed _ (byte_at g.offset input) h in
    elim (Bool-cases (dup_info == non_dup_marker)) [
      | inl fresh ↦
          let ((a, next), found, h2) =
            passed _ (deserialize_account input (g.offset + 1)) (rw fresh at h1) in
          let (above, below) = deserialize_account_inv input (g.offset + 1) found in
          let same : record {
            places = g.places ++ length g.inputs ∷ [];
            inputs = g.inputs ++ a ∷ [];
            offset = next;
          }
              ≡ g' =
            cc in
          let longer = length-append g.inputs (a ∷ []) in
          rw (← same) (record {
            counted = omega (arith, length-append g.places (length g.inputs ∷ []), laid.counted);
            places =
                All-append (λ p. p < length (g.inputs ++ a ∷ [])) g.places (length g.inputs)
                  (All-more g.places (omega (arith, longer)) laid.places) (omega (arith, longer));
            regions = Regions-append g.inputs a 8 laid.regions (omega (arith, above)) below;
          })
      | inr duplicate ↦ elim (Option-cases (get_elem? g.places dup_info)) [
        | inl missing ↦ absurd (cc (rw (duplicate, missing) at h1))
        | inr (p, found) ↦
            let same : record {
              places = g.places ++ p ∷ [];
              inputs = g.inputs;
              offset = g.offset + 8;
            }
                ≡ g' =
              cc (rw (duplicate, found) at h1) in
            rw (← same) (record {
              counted = omega (arith, length-append g.places (p ∷ []), laid.counted);
              places =
                  All-append (λ p. p < length g.inputs) g.places p laid.places
                    (All-get_elem (λ p. p < length g.inputs) g.places dup_info laid.places found);
              regions = Regions-le g.inputs 8 (omega arith) laid.regions;
            })
      ]
    ]

gather_times-Laid :
    (more : ℕ) (input : Bytes) (count : ℕ) (g : Gathered) {g' : Gathered}
    → Laid count g
    → gather_times more input g ≡ ok g'
    → Laid (count + more) g'
unfolding gather_times
gather_times-Laid zero input count g {g' = g'} laid h =
    let same : g ≡ g' = cc in
    let counts : count + 0 ≡ count = omega arith in rw (counts, ← same) laid
gather_times-Laid (suc more) input count g laid h =
    let (g1, one, later) = passed (gather_times more input) (gather input g) h in
    let counts : count + suc more ≡ count + 1 + more = omega arith in
    rw counts
      (gather_times-Laid more input (count + 1) g1 (gather-Laid input count g laid one) later)

-- Memory that is parsed with success gives as many accounts as its first eight bytes say, each of them
-- one that has been read; and the data of each account that has been read, with the 10 KiB behind it
-- that a run may grow it into, ends in front of the data of the next one, and of the instruction.
pub deserialize-Laid :
    (input : Bytes) {p : Parsed}
    → deserialize input ≡ ok p
    → (n : Bytes) × (slice 0 8 input ≡ ok n) × Laid (from_le_bytes n) p.accounts
unfolding deserialize
deserialize-Laid input {p = p} h =
    let start : Gathered = record { places = []; inputs = []; offset = 8 } in
    let laid : Laid 0 start = record { counted = refl; places = tt; regions = omega arith } in
    let (n, found, h1) = passed _ (slice 0 8 input) h in
    let (g, gathered, h2) = passed _ (gather_times (from_le_bytes n) input start) h1 in
    let (len, _, h3) = passed _ (slice g.offset 8 input) h2 in
    let (data_, _, h4) = passed _ (slice (g.offset + 8) (from_le_bytes len) input) h3 in
    let (id, _, h5) = passed _ (slice (g.offset + 8 + from_le_bytes len) 32 input) h4 in
    let same : g ≡ p.accounts = ap (accounts_of g) h5 in
    let counts : 0 + from_le_bytes n ≡ from_le_bytes n = omega arith in
    (
      n,
      found,
      rw (← counts, ← same) (gather_times-Laid (from_le_bytes n) input 0 start laid gathered),
    )
  where
    accounts_of : Gathered → ProgramResult Parsed → Gathered
    accounts_of g (ok p) = p.accounts
    accounts_of g _ = g
