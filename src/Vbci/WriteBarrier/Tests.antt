-- ===== src/Vbci/WriteBarrier/Tests.antt =====
-- Tests of the write barrier: region 8 has the child 16, region 24 has no owner; each is in use.
use verona_bc.Prelude.{
  ℕ, ◌+◌, ◌^◌, ◌<◌, ◌≡◌, true, false, ◌||◌, some, none, [], ◌∷◌, ◌==◌, if◌then◌else◌, refl, sym,
  ◌∙◌, arith, inl, inr, Bool-cases,
}
use verona_bc.Prelude.Sums.{total}
use verona_bc.Vbci.Regions.{Owner, unowned, child_of, Region, Store}
use verona_bc.Vbci.Regions.Forest.{
  is_child, active_children, IsBalanced, IsForest, more_at, less_at,
}
use verona_bc.Vbci.Regions.Owners.{child_of_inj, no_parent}
use verona_bc.Vbci.WriteBarrier.{Drag, to_addr, clear_register, in_field_inc}
use verona_bc.Vbci.WriteBarrier.Apply.{exchange, stored}
use verona_bc.Vbci.WriteBarrier.Plan.{IsHeap}
use verona_bc.Vbci.WriteBarrier.Runs.{exchange_stack-none}
use verona_bc.Vbci.WriteBarrier.Exchange.{IsExchanged, exchange-IsExchanged, exchange_orphans}

abbrev heap_region : Owner → ℕ → Region
heap_region o rc = record { owner = o; entry_point = none; stack_rc = rc; frame_depth = 0 }

abbrev trio : Store
trio = record {
  regions = λ q.
      if q == 16
      then heap_region (child_of 8) 1
      else if q == 8
      then heap_region unowned 2
      else heap_region unowned (if q == 24 then 1 else 0);
  freed = [];
}

abbrev outside : ℕ → ℕ
outside q = if q == 16 || (q == 8 || q == 24) then 1 else 0

abbrev rank : ℕ → ℕ
rank q = q

-- Nothing is dragged.
abbrev drag : Drag
drag s r ptr = none

trio-active : (q : ℕ) → active_children 25 trio q ≡ is_child (child_of 8) q
unfolding total
trio-active q = omega arith

trio-IsBalanced : IsBalanced 25 trio outside
trio-IsBalanced q l heap = ground (arith, trio-active q)

trio-IsForest : IsForest 25 rank trio
trio-IsForest q p l own = elim (Bool-cases (q == 16)) [
  | inl same ↦
      let e : q ≡ 16 = ground arith in
      let own' : child_of 8 ≡ child_of p = rw e at own in
      let parent = child_of_inj 8 p own' in (omega arith, omega arith)
  | inr other ↦
      let root : (trio.regions q).owner ≡ unowned = ground arith in
      absurd (no_parent p (sym root ∙ own))
]

trio-room : (q : ℕ) → q < 25 → outside q + 25 + 1 < 2 ^ 32
trio-room q l = ground arith

eight-IsHeap : IsHeap trio 8
eight-IsHeap = record { region = refl; depth = refl }

sixteen-IsHeap : IsHeap trio 16
sixteen-IsHeap = record { region = refl; depth = refl }

last-IsHeap : IsHeap trio 24
last-IsHeap = record { region = refl; depth = refl }

exchange-IsExchanged_example :
    (s' : Store) × (exchange drag 30 [] true (some 5) trio 8 16 24
      ≡ some (stored s' (to_addr ∷ clear_register ∷ [])))
    × IsExchanged 25 rank (more_at (less_at outside 24 1) 16 1) 8 16 24 s'
exchange-IsExchanged_example =
    exchange-IsExchanged drag [] 5 true 25 rank 30 trio 8 16 24 outside
      (omega arith, omega arith, omega arith) (omega arith, omega arith, omega arith, omega arith)
      trio-room (omega arith) (eight-IsHeap, sixteen-IsHeap, last-IsHeap) refl refl trio-IsForest
      trio-IsBalanced

exchange_orphans_example :
    (s' : Store) × (exchange drag 30 [] false (some 5) trio 8 16 16
      ≡ some (stored s' (to_addr ∷ in_field_inc ∷ [])))
    × ((s'.regions 16).owner ≡ unowned)
exchange_orphans_example =
    exchange_orphans drag [] 5 25 rank 30 trio 8 16 outside (omega arith) (omega arith, omega arith)
      trio-room (eight-IsHeap, sixteen-IsHeap) refl trio-IsForest trio-IsBalanced

exchange_stack-none_example : exchange drag 30 [] true none trio 9 24 4 ≡ none
exchange_stack-none_example =
    exchange_stack-none drag 30 [] none trio 9 24 4 refl refl refl true refl
