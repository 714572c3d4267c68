-- ===== src/Vbci/Stack/Bounds.antt =====
-- What `alloc` hands out is aligned, inside its chunk, and above what has been handed out.
use native.Mathlib.Decide.{dec_lt}
use verona_bc.Prelude.{
  ℕ, ◌+◌, ◌-◌, ◌*◌, ◌/◌, ◌%◌, ◌^◌, ◌≤◌, ◌<◌, ◌≡◌, ◌⊎◌, inl, inr, true, false, none, some, ◌∷◌, ltb,
  leb, refl, ◌∙◌, arith, Bool-cases,
}
use verona_bc.Prelude.Masks.{bit_and_not_7}
use verona_bc.Vbci.Stack.{
  Idx, Stack, chunk_size, align_up, save, restore, next_chunk, grow, take_top, alloc,
}

-- The top is aligned and in the chunks, or at the start of the next one.
pub record IsStack (s : Stack) : Type 0 where
  pub aligned : s.top.offset % 8 ≡ 0
  pub inside : s.top.offset ≤ chunk_size
  pub backed : s.top.chunk ≤ s.chunks
  pub used : (0 < s.top.offset) → s.top.chunk < s.chunks

align_up_lem : (n : ℕ) → n + 7 < 2 ^ 64 → align_up n ≡ (n + 7) / 8 * 8
unfolding align_up
align_up_lem n h =
    let small : (n + 7) % 2 ^ 64 ≡ n + 7 = omega arith in rw small (bit_and_not_7 (n + 7) h)

-- What an allocation of `size` bytes at `i` in the stack `s` leaves.
pub record IsAllocated (s : Stack) (size : ℕ) (i : Idx) (s' : Stack) : Type 0 where
  pub ready : IsStack s'
  pub aligned : i.offset % 8 ≡ 0
  pub in_chunk : (i.chunk < s'.chunks) × (i.offset + size ≤ chunk_size)
  pub above : ((s.top.chunk ≡ i.chunk) × (s.top.offset ≤ i.offset)) ⊎ (s.top.chunk < i.chunk)
  pub below_top : (s'.top.chunk ≡ i.chunk) × (i.offset + size ≤ s'.top.offset)
  pub kept : s.chunks ≤ s'.chunks

start_of : (s : Stack) → IsStack s → leb s.chunks s.top.chunk ≡ true → s.top.offset ≡ 0
start_of s w new = elim (dec_lt 0 s.top.offset) [
  | yes later ↦ absurd (omega (arith, w.used later, at_end))
  | no start ↦ omega arith
]
  where
    at_end : s.chunks ≤ s.top.chunk
    at_end = ground arith

take_top-IsAllocated :
    (s : Stack) (size a : ℕ)
    → IsStack s
    → 0 < size
    → size ≤ a
    → a % 8 ≡ 0
    → s.top.offset + a ≤ chunk_size
    → (i : Idx) × (s' : Stack) × (take_top s a ≡ some (some i, s')) × IsAllocated s size i s'
unfolding take_top grow
take_top-IsAllocated s size a w pos le al room = elim (Bool-cases (leb s.chunks s.top.chunk)) [
  | inl new ↦
      let start = start_of s w new in
      let at_end : s.chunks ≤ s.top.chunk = ground arith in
      (
        record { chunk = s.chunks; offset = 0 },
        record s { chunks = s.chunks + 1; top = record { chunk = s.chunks; offset = 0 + a } },
        rw new refl,
        record {
          ready = record {
            aligned = omega (arith, al);
            inside = omega arith;
            backed = omega arith;
            used = λ h. omega arith;
          };
          aligned = refl;
          in_chunk = (omega arith, omega arith);
          above = inl (omega (arith, w.backed), omega arith);
          below_top = (refl, omega arith);
          kept = omega arith;
        },
      )
  | inr old ↦
      let inside : ltb s.top.offset chunk_size ≡ true = ground arith in
      let before : s.top.chunk < s.chunks = ground arith in
      (
        s.top,
        record s { top = record { chunk = s.top.chunk; offset = s.top.offset + a } },
        rw (old, inside) refl,
        record {
          ready = record {
            aligned = omega (arith, w.aligned);
            inside = room;
            backed = w.backed;
            used = λ h. before;
          };
          aligned = w.aligned;
          in_chunk = (before, omega arith);
          above = inl (refl, omega arith);
          below_top = (refl, omega arith);
          kept = omega arith;
        },
      )
]

-- A next chunk, where the top is not at the start of its chunk.
next_chunk-IsStack :
    (header_size : ℕ) (s : Stack)
    → IsStack s
    → 0 < s.top.offset
    → (s' : Stack) × (next_chunk header_size s ≡ some s')
      × IsStack s'
      × ((s'.top.chunk ≡ s.top.chunk + 1) × (s'.top.offset ≡ 0) × (s'.chunks ≡ s.chunks))
unfolding next_chunk
next_chunk-IsStack header_size s w later =
    let before : s.top.chunk < s.chunks = w.used later in
    let backed : ltb s.top.chunk s.chunks ≡ true = ground arith in
    let moved = record s { top = record { chunk = s.top.chunk + 1; offset = 0 } } in
    elim (Bool-cases (leb header_size (chunk_size - s.top.offset))) [
      | inl room ↦ (
        record moved { markers = s.top ∷ s.markers },
        rw (room, backed) refl,
        record {
          aligned = refl;
          inside = omega arith;
          backed = omega arith;
          used = λ h. absurd (omega arith);
        },
        (refl, refl, refl),
      )
      | inr full ↦ (
        moved,
        rw full refl,
        record {
          aligned = refl;
          inside = omega arith;
          backed = omega arith;
          used = λ h. absurd (omega arith);
        },
        (refl, refl, refl),
      )
    ]

-- What is allocated behind a later top is allocated behind an earlier one.
IsAllocated-next :
    (s s1 : Stack) (size : ℕ) (i : Idx) (s' : Stack)
    → s1.top.chunk ≡ s.top.chunk + 1
    → s1.chunks ≡ s.chunks
    → IsAllocated s1 size i s'
    → IsAllocated s size i s'
IsAllocated-next s s1 size i s' at same got = record {
  ready = got.ready;
  aligned = got.aligned;
  in_chunk = got.in_chunk;
  above = elim got.above [ inl (here, up) ↦ inr (omega arith) | inr later ↦ inr (omega arith) ];
  below_top = got.below_top;
  kept = omega (arith, got.kept);
}

restore-IsStack : (s s' : Stack) → IsStack s → s.chunks ≤ s'.chunks → IsStack (restore s' (save s))
unfolding restore save
restore-IsStack s s' w kept = record {
  aligned = w.aligned;
  inside = w.inside;
  backed = omega (arith, w.backed);
  used = λ h. omega (arith, w.used h);
}

alloc-here :
    (header_size : ℕ) (s : Stack) (size a : ℕ)
    → align_up size ≡ a
    → ltb chunk_size a ≡ false
    → ltb chunk_size (s.top.offset + a) ≡ false
    → alloc header_size s size ≡ take_top s a
unfolding alloc
alloc-here header_size s size a e small here = rw (e, small, here) refl

alloc-over :
    (header_size : ℕ) (s s' : Stack) (size a : ℕ)
    → align_up size ≡ a
    → ltb chunk_size a ≡ false
    → ltb chunk_size (s.top.offset + a) ≡ true
    → next_chunk header_size s ≡ some s'
    → alloc header_size s size ≡ take_top s' a
unfolding alloc
alloc-over header_size s s' size a e small over moved = rw (e, small, over, moved) refl

-- In a stack whose top is aligned and in its chunks: an allocation of 1 to 1024 bytes succeeds, is aligned to 8 bytes and
-- within one chunk of the stack, lies above the old top and below the new one, so it overlaps nothing handed
-- out before, and the stack is still such a stack, also when the old top is restored; one of more than 1024 bytes gives a null pointer and
-- changes nothing.
pub alloc-IsAllocated :
    (header_size : ℕ) (s : Stack) (size : ℕ)
    → 0 < size
    → size + 7 < 2 ^ 64
    → IsStack s
    → ((size ≤ chunk_size)
        × ((i : Idx) × (s' : Stack) × (alloc header_size s size ≡ some (some i, s'))
            × IsAllocated s size i s'
            × IsStack (restore s' (save s))))
      ⊎ ((chunk_size < size) × (alloc header_size s size ≡ some (none, s)))
unfolding alloc
alloc-IsAllocated header_size s size pos word w =
    let a = (size + 7) / 8 * 8 in
    let e : align_up size ≡ a = align_up_lem size word in
    elim (Bool-cases (ltb chunk_size a)) [
      | inl large ↦ inr (ground arith, rw (e, large) refl)
      | inr small ↦
          let fits : a ≤ chunk_size = ground arith in
          inl (
            omega arith,
            elim (Bool-cases (ltb chunk_size (s.top.offset + a))) [
              | inr here ↦
                  let room : s.top.offset + a ≤ chunk_size = ground arith in
                  let (i, s', run, got) =
                    take_top-IsAllocated s size a w pos (omega arith) (omega arith) room in
                  (
                    i,
                    s',
                    alloc-here header_size s size a e small here ∙ run,
                    got,
                    restore-IsStack s s' w got.kept,
                  )
              | inl over ↦
                  let past : chunk_size < s.top.offset + a = ground arith in
                  let (s1, moved, w1, (at, start, same)) =
                    next_chunk-IsStack header_size s w (omega arith) in
                  let (i, s', run, got) =
                    take_top-IsAllocated s1 size a w1 pos (omega arith) (omega arith)
                      (omega (arith, start)) in
                  let got' = IsAllocated-next s s1 size i s' at same got in
                  (
                    i,
                    s',
                    alloc-over header_size s s1 size a e small over moved ∙ run,
                    got',
                    restore-IsStack s s' w got'.kept,
                  )
            ],
          )
    ]
