-- ===== src/Sdk/Heap.antt =====
-- `BumpAllocator` of arch/program/src/entrypoint.rs. Its state is the word at the start of the heap,
-- which is 0 before the first allocation, and then the address of the last block.
pub mod Blocks
use chainring_contracts.Base.{
  ℕ, ◌+◌, ◌-◌, ◌*◌, ◌%◌, Bool, Option, none, some, List, [], ◌∷◌, ltb, ◌==◌, if◌then◌else◌,
}

pub record BumpAllocator : Type 0 where
  pub start : ℕ
  pub len : ℕ

-- The heap of `custom_heap_default!`.
abbrev pub heap : BumpAllocator
heap = record { start = 0x3_0000_0000; len = 32 * 1024 }

-- `Layout`: its alignment is a power of two.
pub record Layout : Type 0 where
  pub size : ℕ
  pub align : ℕ

-- `pos &= !(layout.align().wrapping_sub(1))`: for a power of two, the multiple of it at or below `pos`.
unfoldable pub align_down : ℕ → ℕ → ℕ
align_down align pos = pos - pos % align

-- Where blocks may end: the end of the heap at first.
unfoldable pub top : BumpAllocator → ℕ → ℕ
top a pos = if pos == 0 then a.start + a.len else pos

-- `alloc`: the address of the block, and the word at the start of the heap. `null_mut` is `none`, and
-- leaves the word as it is.
unfoldable pub alloc : BumpAllocator → Layout → ℕ → Option ℕ × ℕ
alloc a layout word =
    let pos = align_down layout.align (top a word - layout.size) in
    if ltb pos (a.start + 8) then (none, word) else (some pos, pos)

pub record Block : Type 0 where
  pub address : ℕ
  pub layout : Layout

abbrev pub keep : Layout → Option ℕ → List Block → List Block
keep layout none blocks = blocks
keep layout (some p) blocks = record { address = p; layout = layout } ∷ blocks

-- The blocks that a list of requests is given, in their order.
unfoldable pub alloc_each : BumpAllocator → List Layout → ℕ → List Block
alloc_each a [] word = []
alloc_each a (layout ∷ rest) word =
    let (p, next) = alloc a layout word in
    let blocks = alloc_each a rest next in keep layout p blocks
