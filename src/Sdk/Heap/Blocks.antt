-- ===== src/Sdk/Heap/Blocks.antt =====
-- The blocks of the allocator lie in the heap, behind its first word, aligned, and apart from each
-- other.
use native.Mathlib.Nat.{div-add-mod', mul-mod_left, mod-lt}
use chainring_contracts.Base.{
  ℕ, ◌+◌, ◌-◌, ◌*◌, ◌/◌, ◌%◌, ◌≤◌, ◌<◌, ◌≡◌, ◌⊎◌, inl, inr, refl, none, some, List, [], ◌∷◌, ltb,
  Bool-cases, ltb→lt, All, length, suc, ap, arith,
}
use chainring_contracts.Sdk.Heap.{BumpAllocator, Layout, align_down, top, alloc, Block, alloc_each}

-- The word at the start of the heap is 0, or an address in the heap behind that word.
abbrev pub IsWord : BumpAllocator → ℕ → Type 0
IsWord a word = (word ≡ 0) ⊎ ((a.start + 8 ≤ word) × (word ≤ a.start + a.len))

abbrev pub IsLayout : Layout → Type 0
IsLayout layout = 0 < layout.align

-- A block in the heap, aligned.
pub record InHeap (a : BumpAllocator) (b : Block) : Type 0 where
  pub above : a.start + 8 ≤ b.address
  pub below : b.address + b.layout.size ≤ a.start + a.len
  pub aligned : b.address % b.layout.align ≡ 0

-- Each block lies behind all later ones.
abbrev pub Apart : List Block → Type 0
Apart [] = Unit {0}
Apart (b ∷ rest) = All (λ c. c.address + c.layout.size ≤ b.address) rest × Apart rest

top_lem : (a : BumpAllocator) (word : ℕ) → IsWord a word → top a word ≤ a.start + a.len
unfolding top
top_lem a word (inl zero_word) = ground arith
top_lem a word (inr (above, below)) = ground arith

module _ (align pos : ℕ) (positive : 0 < align) where
  align_down-multiple : align_down align pos ≡ pos / align * align
  unfolding align_down
  align_down-multiple = omega (arith, div-add-mod' pos align)

  align_down-aligned : align_down align pos % align ≡ 0
  align_down-aligned = rw align_down-multiple (mul-mod_left (pos / align) align)

  align_down-le : align_down align pos ≤ pos
  align_down-le = omega (arith, align_down-multiple, div-add-mod' pos align)

  align_down-near : pos < align_down align pos + align
  align_down-near =
      omega (arith, align_down-multiple, div-add-mod' pos align, mod-lt pos {m = align} positive)

-- One request: a block below the others, or nothing.
record Granted (a : BumpAllocator) (layout : Layout) (word p : ℕ) : Type 0 where
  above : a.start + 8 ≤ p
  below : p + layout.size ≤ top a word
  aligned : p % layout.align ≡ 0
  near : top a word < p + layout.size + layout.align

module _ (a : BumpAllocator) (layout : Layout) (word : ℕ) (positive : IsLayout layout) where
  abbrev at : ℕ
  at = align_down layout.align (top a word - layout.size)

  granted : a.start + 8 ≤ at → Granted a layout word at
  granted above =
      let le = align_down-le layout.align (top a word - layout.size) positive in
      let near = align_down-near layout.align (top a word - layout.size) positive in
      record {
        above = above;
        below = omega (arith, above, le);
        aligned = align_down-aligned layout.align (top a word - layout.size) positive;
        near = omega (arith, near, above, le);
      }

  alloc_branches :
      ((alloc a layout word ≡ (none, word))
        × (top a word < a.start + 8 + layout.size + layout.align))
      ⊎ ((p : ℕ) × (alloc a layout word ≡ (some p, p)) × Granted a layout word p)
  unfolding alloc
  alloc_branches = elim (Bool-cases (ltb at (a.start + 8))) [
    | inl short ↦
        let near = align_down-near layout.align (top a word - layout.size) positive in
        let low : at < a.start + 8 = ltb→lt _ _ short in
        inl (rw short refl, omega (arith, near, low))
    | inr room ↦
        let above : a.start + 8 ≤ at = ground arith in inr (at, rw room refl, granted above)
  ]

-- Blocks below a limit.
abbrev Below : ℕ → List Block → Type 0
Below limit = All (λ c. c.address + c.layout.size ≤ limit)

Below-le : {m n : ℕ} → m ≤ n → (blocks : List Block) → Below m blocks → Below n blocks
Below-le le [] all = tt
Below-le le (b ∷ rest) (h, all) = (omega (arith, h, le), Below-le le rest all)

module _ (a : BumpAllocator) where
  top-word : (p : ℕ) → a.start + 8 ≤ p → top a p ≡ p
  unfolding top
  top-word p above = ground arith

  Granted-IsWord :
      (layout : Layout) (word p : ℕ) → IsWord a word → Granted a layout word p → IsWord a p
  Granted-IsWord layout word p is g = inr (g.above, omega (arith, g.below, top_lem a word is))

  alloc_each_lem :
      (layouts : List Layout)
      → All IsLayout layouts
      → (word : ℕ) → IsWord a word
      → All (InHeap a) (alloc_each a layouts word)
        × Apart (alloc_each a layouts word)
        × Below (top a word) (alloc_each a layouts word)
  unfolding alloc_each
  alloc_each_lem [] all word is = (tt, tt, tt)
  alloc_each_lem (layout ∷ rest) (positive, all) word is =
      elim (alloc_branches a layout word positive) [
        | inl (full, _) ↦ rw full (alloc_each_lem rest all word is)
        | inr (p, e, g) ↦
            let (inside, apart, below) =
              alloc_each_lem rest all p (Granted-IsWord layout word p is g) in
            let blocks = alloc_each a rest p in
            let beneath : Below p blocks = rw (top-word p g.above) at below in
            let here : InHeap a (record { address = p; layout = layout }) = record {
              above = g.above;
              below = omega (arith, g.below, top_lem a word is);
              aligned = g.aligned;
            } in
            rw e (
              (here, inside),
              (beneath, apart),
              (g.below, Below-le (omega (arith, g.below)) blocks beneath),
            )
      ]

-- However many blocks are asked for, each that is granted lies in the heap behind its first word, is
-- aligned, and overlaps no other; alignments are positive, and the first word is 0 or an address in
-- the heap.
pub alloc_each-Apart :
    (a : BumpAllocator) (layouts : List Layout) (word : ℕ)
    → All IsLayout layouts
    → IsWord a word
    → All (InHeap a) (alloc_each a layouts word) × Apart (alloc_each a layouts word)
alloc_each-Apart a layouts word all is =
    let (inside, apart, _) = alloc_each_lem a layouts all word is in (inside, apart)

-- The room that requests take at most.
unfoldable pub room_for : List Layout → ℕ
room_for [] = 0
room_for (layout ∷ rest) = layout.size + layout.align + room_for rest

-- Requests whose sizes and alignments together fit between the first word and the last block are all
-- granted; alignments are positive.
pub length-alloc_each :
    (a : BumpAllocator) (layouts : List Layout) (word : ℕ)
    → All IsLayout layouts
    → a.start + 8 + room_for layouts ≤ top a word
    → length (alloc_each a layouts word) ≡ length layouts
unfolding alloc_each room_for
length-alloc_each a [] word all room = refl
length-alloc_each a (layout ∷ rest) word (positive, all) room =
    elim (alloc_branches a layout word positive) [
      | inl (_, short) ↦ absurd (omega (arith, room, short))
      | inr (p, e, g) ↦
          let left : a.start + 8 + room_for rest ≤ top a p =
            rw (top-word a p g.above) (omega (arith, room, g.near)) in
          rw e (ap suc (length-alloc_each a rest p all left))
    ]
