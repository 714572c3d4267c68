-- ===== src/Vbci/Stack.antt =====
-- The stack of a thread: `Stack` of vbci/stack.h and vbci/stack.cc, as far as it hands out memory. A
-- chunk is known by its index, and `markers` has where sentinels have been written, the latest first.
pub mod Bounds
pub mod Tests
use Prim.Native.Nat.{bit_and}
use verona_bc.Prelude.{
  ℕ, zero, suc, ◌+◌, ◌-◌, ◌%◌, ◌^◌, Bool, true, false, Option, none, some, List, [], ◌∷◌, ltb, leb,
  if◌then◌else◌,
}
use verona_bc.Prelude.Fallible.{◌>>=◌}

pub record Idx : Type 0 where
  pub chunk : ℕ
  pub offset : ℕ

-- `chunks` is the number of chunks.
pub record Stack : Type 0 where
  pub chunks : ℕ
  pub top : Idx
  pub markers : List Idx

abbrev pub chunk_size : ℕ
chunk_size = 1024

abbrev pub align : ℕ
align = 8

-- `(n + 7) & ~7` in 64 bits.
pub align_up : ℕ → ℕ
align_up n = bit_and ((n + (align - 1)) % 2 ^ 64) (2 ^ 64 - 1 - (align - 1))

pub save : Stack → Idx
save s = s.top

pub restore : Stack → Idx → Stack
restore s i = record s { top = i }

-- The rest of the chunk stays unused, with a marker if there is room for a header. `none` is the throw of
-- `chunks.at`.
pub next_chunk : ℕ → Stack → Option Stack
next_chunk header_size s =
    let moved = record s { top = record { chunk = s.top.chunk + 1; offset = 0 } } in
    if leb header_size (chunk_size - s.top.offset)
    then (if ltb s.top.chunk s.chunks
        then some (record moved { markers = s.top ∷ s.markers })
        else none)
    else some moved

pub grow : Stack → Stack
grow s =
    if leb s.chunks s.top.chunk
    then record s { chunks = s.chunks + 1; top = record { chunk = s.chunks; offset = 0 } }
    else s

-- The rest of `alloc`, where the allocation fits behind the top: the inner `none` is a null pointer, the outer
-- one the throw of `at`.
pub take_top : Stack → ℕ → Option (Option Idx × Stack)
unfolding grow
take_top s aligned_size =
    let s' = grow s in
    if ltb s'.top.offset chunk_size
    then some (
      some s'.top,
      record s' { top = record { chunk = s'.top.chunk; offset = s'.top.offset + aligned_size } },
    )
    else none

pub alloc : ℕ → Stack → ℕ → Option (Option Idx × Stack)
unfolding next_chunk
alloc header_size s size =
    let aligned_size = align_up size in
    if ltb chunk_size aligned_size then some (none, s) else (do
      s' ←
          (if ltb chunk_size (s.top.offset + aligned_size)
            then next_chunk header_size s
            else some s)
      take_top s' aligned_size)
