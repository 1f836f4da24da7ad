-- ===== src/Sdk/Entrypoint/Growth.antt =====
-- Reallocations stay in the region of their account.
use chainring_contracts.Base.{
  ℕ, zero, suc, ◌+◌, ◌-◌, ◌≤◌, ◌≡◌, ◌∙◌, ◌⊎◌, sym, ap, inl, inr, Bool-cases, List, [], ◌∷◌, ◌++◌,
  length, length-append, length-replicate, take, replicate, ltb, ◌==◌, ==_iff, arith,
}
use chainring_contracts.Base.Outcome.{ok, ◌>>=◌, passed}
use chainring_contracts.State.Raw.{ProgramResult}
use chainring_contracts.Sdk.Account.{Account, realloc, max_permitted_data_increase}
use chainring_contracts.Sdk.Entrypoint.{AccountInput}
use chainring_contracts.Sdk.Entrypoint.Regions.{region_end}

module _ {A : Type 0} (x : A) where
  length-take : (n : ℕ) (list : List A) → length (take n list) + (n - length list) ≡ n
  length-take zero list = omega arith
  length-take (suc n) [] = omega arith
  length-take (suc n) (y ∷ rest) = omega (arith, length-take n rest)

  length-resized :
      (n : ℕ) (list : List A) → length (take n list ++ replicate (n - length list) x) ≡ n
  length-resized n list = omega (
    arith,
    length-append (take n list) (replicate (n - length list) x),
    length-take n list,
    length-replicate (n - length list) x,
  )

-- What one reallocation does: the length is the one that is asked for, and is either what it was, or at
-- most 10 KiB above the length that the host noted, which stays.
record Resized (new_len : ℕ) (a a' : Account) : Type 0 where
  size : length a'.data_ ≡ new_len
  noted : a'.original_data_len ≡ a.original_data_len
  bounded :
      (new_len ≡ length a.data_) ⊎ (new_len ≤ a.original_data_len + max_permitted_data_increase)

realloc-Resized :
    (new_len : ℕ) (a : Account) {a' : Account} → realloc new_len a ≡ ok a' → Resized new_len a a'
unfolding realloc
realloc-Resized new_len a {a' = a'} h = elim (Bool-cases (new_len == length a.data_)) [
  | inl same ↦
      let e = (==_iff new_len (length a.data_)).0 same in
      let unmoved : a ≡ a' = cc (rw same at h) in
      record {
        size = ap (λ b. length b.data_) (sym unmoved) ∙ sym e;
        noted = ap (λ b. b.original_data_len) (sym unmoved);
        bounded = inl e;
      }
  | inr other ↦
      elim (Bool-cases (ltb max_permitted_data_increase (new_len - a.original_data_len))) [
        | inl long ↦ absurd (cc (rw (other, long) at h))
        | inr fits ↦
            let resized = take new_len a.data_ ++ replicate (new_len - length a.data_) 0 in
            let done : record a { data_ = resized } ≡ a' = cc (rw (other, fits) at h) in
            let le : new_len - a.original_data_len ≤ max_permitted_data_increase = ground arith in
            record {
              size = ap (λ b. length b.data_) (sym done) ∙ length-resized 0 new_len a.data_;
              noted = ap (λ b. b.original_data_len) (sym done);
              bounded = inr (omega (arith, le));
            }
      ]
]

-- Reallocations of one account, one after the other.
abbrev pub realloc_each : List ℕ → Account → ProgramResult Account
realloc_each [] a = ok a
realloc_each (new_len ∷ rest) a = realloc new_len a >>= realloc_each rest

-- A limit that holds for the data and for 10 KiB behind the noted length holds after all of them.
realloc_each-le :
    (lens : List ℕ) (a : Account) (limit : ℕ) {a' : Account}
    → length a.data_ ≤ limit
    → a.original_data_len + max_permitted_data_increase ≤ limit
    → realloc_each lens a ≡ ok a'
    → length a'.data_ ≤ limit
realloc_each-le [] a limit {a' = a'} fits room h = let same : a ≡ a' = cc in rw (← same) fits
realloc_each-le (new_len ∷ rest) a limit fits room h =
    let (b, one, later) = passed (realloc_each rest) (realloc new_len a) h in
    let r = realloc-Resized new_len a one in
    let fits' : length b.data_ ≤ limit = elim r.bounded [
      | inl same ↦ omega (arith, r.size, same, fits)
      | inr le ↦ omega (arith, r.size, le, room)
    ] in
    realloc_each-le rest b limit fits' (omega (arith, r.noted, room)) later

-- However often the account is reallocated in a run, its data ends within the region that it had when
-- the memory was parsed: not behind the 10 KiB that followed its data then. The length that the host
-- noted for the run is at most that of the data.
pub realloc_each-region_end :
    (lens : List ℕ) (a : AccountInput) {account : Account}
    → a.account.original_data_len ≤ length a.account.data_
    → realloc_each lens a.account ≡ ok account
    → a.data_offset + length account.data_ ≤ region_end a
realloc_each-region_end lens a noted h =
    let limit = length a.account.data_ + max_permitted_data_increase in
    let le = realloc_each-le lens a.account limit (omega arith) (omega (arith, noted)) h in
    omega (arith, le)
