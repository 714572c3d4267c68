-- ===== src/Vbci/WriteBarrier/Exchange.antt =====
-- `exchange` on a field of a region on the heap: which regions own which afterwards, and the stack counts.
use verona_bc.Prelude.{
  ℕ, ◌+◌, ◌≤◌, ◌<◌, ◌≡◌, ◌≢◌, Bool, true, false, some, List, [], ◌∷◌, refl, sym, ◌∙◌, arith,
}
use verona_bc.Vbci.Regions.{Store, unowned, child_of, rc_mod, has_owner}
use verona_bc.Vbci.Regions.Forest.{IsBalanced, IsForest, IsForest-same, more_at, less_at}
use verona_bc.Vbci.Regions.Dec.{stack_dec-Lowers}
use verona_bc.Vbci.Regions.Owners.{set_parent-IsBalanced, no_parent}
use verona_bc.Vbci.WriteBarrier.{Drag, Effect, to_addr, clear_register, in_field_inc}
use verona_bc.Vbci.WriteBarrier.Apply.{exchange, stored}
use verona_bc.Vbci.WriteBarrier.Plan.{IsHeap}
use verona_bc.Vbci.WriteBarrier.Runs.{exchange_copy, exchange_move, exchange_owned}
use verona_bc.Vbci.WriteBarrier.Exact.{release_old, balanced-fits, not_ancestor, less_at-le}

-- What `exchange` leaves: the counts for the outside counts `e`, the new child and the old one.
abbrev pub IsExchanged : ℕ → (ℕ → ℕ) → (ℕ → ℕ) → ℕ → ℕ → ℕ → Store → Type 0
IsExchanged n rank e st out in_r s' =
    IsBalanced n s' e
    × IsForest n rank s'
    × ((s'.regions in_r).owner ≡ child_of st)
    × ((s'.regions out).owner ≡ unowned)

abbrev pub on_incoming : Bool → List Effect
on_incoming true = to_addr ∷ clear_register ∷ []
on_incoming false = to_addr ∷ in_field_inc ∷ []

-- A copy leaves the register's reference, a move takes it.
abbrev pub held : Bool → (ℕ → ℕ) → ℕ → ℕ → ℕ
held true e r = less_at e r 1
held false e r = e

unowned_apart :
    (s : Store) (st out in_r : ℕ)
    → (s.regions out).owner ≡ child_of st
    → (s.regions in_r).owner ≡ unowned
    → out ≢ in_r
unowned_apart s st out in_r own own' i = no_parent st (sym own' ∙ rw i at own)

pub rank-apart : (rank : ℕ → ℕ) (a b : ℕ) → rank a < rank b → a ≢ b
rank-apart rank a b l i = let l' = rw i at l in omega arith

bare_owner : (s : Store) (r : ℕ) → (s.regions r).owner ≡ unowned → has_owner (s.regions r) ≡ false
bare_owner s r own = rw own refl

-- A field of region `st` refers to its child `out`, and gets a value of the region `in_r` without an owner, of a
-- larger rank, that a register refers to: in a balanced forest on the heap, with fuel above the ranks of
-- `st` and `out` and room for the counts in 32 bits, `exchange` succeeds and writes the field; it makes
-- `in_r` a child of `st`, leaves `out` without an owner, keeps the regions a forest, and the counts
-- are exact for one reference more to `out`, that of the result, and in a move for one less to `in_r`, that
-- of the register.
pub exchange-IsExchanged :
    (drag : Drag) (frames : List ℕ) (header : ℕ) (is_move : Bool) (n : ℕ) (rank : ℕ → ℕ) (fuel : ℕ)
    (s : Store) (st out in_r : ℕ) (e : ℕ → ℕ)
    → (st < n) × (out < n) × (in_r < n)
    → (rank st < rank in_r) × (rank st < fuel) × (rank out < fuel) × (rank in_r < fuel)
    → ((q : ℕ) → q < n → e q + n + 1 < rc_mod)
    → 1 ≤ e in_r
    → IsHeap s st × IsHeap s out × IsHeap s in_r
    → (s.regions out).owner ≡ child_of st
    → (s.regions in_r).owner ≡ unowned
    → IsForest n rank s
    → IsBalanced n s e
    → (s' : Store) × (exchange drag fuel frames is_move (some header) s st out in_r
        ≡ some (stored s' (on_incoming is_move)))
      × IsExchanged n rank (more_at (held is_move e in_r) out 1) st out in_r s'
exchange-IsExchanged drag frames header false n rank fuel s st out in_r e (ls, lo, li)
      (below, fs, fo, fi) room has (hs, ho, hi) own free f b =
    let apart = rank-apart rank st in_r below in
    let apart' = rank-apart rank st out (f out st lo own).1 in
    let apart'' = unowned_apart s st out in_r own free in
    let (s1, run1, (b1, f1, o1, others, depths)) =
      set_parent-IsBalanced n rank fuel s in_r st header e li ls below fs
        (balanced-fits n s e room b) free f b in
    let (s2, s3, run2, run3, (b3, f3, o3, others3, d3)) =
      release_old n rank fuel s1 st out e lo fs fo room (others out apart'' ∙ own)
        (depths out ∙ ho.depth) f1 b1 in
    (
      s3,
      exchange_copy drag fuel frames header s st out hs ho apart' in_r hi apart apart''
          (bare_owner s in_r free) (not_ancestor n rank fuel s in_r st ls fs below f) s1 s2 s3 run1
          run2 run3,
      (b3, f3, others3 in_r (λ i. apart'' (sym i)) ∙ o1, o3),
    )
exchange-IsExchanged drag frames header true n rank fuel s st out in_r e (ls, lo, li)
      (below, fs, fo, fi) room has (hs, ho, hi) own free f b =
    let apart = rank-apart rank st in_r below in
    let apart' = rank-apart rank st out (f out st lo own).1 in
    let apart'' = unowned_apart s st out in_r own free in
    let (s1, run1, (b1, f1, o1, others, depths)) =
      set_parent-IsBalanced n rank fuel s in_r st header e li ls below fs
        (balanced-fits n s e room b) free f b in
    let (alive, t, run, bt, c, fr) =
      stack_dec-Lowers n rank fuel s1 in_r 1 e li (omega arith) fi has f1 b1 in
    let (s2, s3, run2, run3, (b3, f3, o3, others3, d3)) =
      release_old n rank fuel t st out (less_at e in_r 1) lo fs fo
        (λ q l. omega (arith, room q l, less_at-le e in_r q))
        (c.same_owner out ∙ (others out apart'' ∙ own)) (c.same_depth out ∙ (depths out ∙ ho.depth))
        (IsForest-same n rank s1 t c.same_owner f1) bt in
    (
      s3,
      exchange_move drag fuel frames header s st out hs ho apart' in_r hi apart apart''
          (bare_owner s in_r free) (not_ancestor n rank fuel s in_r st ls fs below f) alive s1 t s2
          s3 run1 run run2 run3,
      (b3, f3, others3 in_r (λ i. apart'' (sym i)) ∙ (c.same_owner in_r ∙ o1), o3),
    )

owned_child :
    (s : Store) (r p : ℕ) → (s.regions r).owner ≡ child_of p → has_owner (s.regions r) ≡ true
owned_child s r p own = rw own refl

-- A field of region `st` refers to its child `out`, and gets a copy of another reference into `out`: in a balanced
-- forest on the heap, with fuel above the ranks and room for the counts, `exchange` succeeds and writes
-- the field, but leaves `out` without an owner, although the field refers to it.
pub exchange_orphans :
    (drag : Drag) (frames : List ℕ) (header : ℕ) (n : ℕ) (rank : ℕ → ℕ) (fuel : ℕ) (s : Store)
    (st out : ℕ) (e : ℕ → ℕ)
    → out < n
    → (rank st < fuel) × (rank out < fuel)
    → ((q : ℕ) → q < n → e q + n + 1 < rc_mod)
    → IsHeap s st × IsHeap s out
    → (s.regions out).owner ≡ child_of st
    → IsForest n rank s
    → IsBalanced n s e
    → (s' : Store) × (exchange drag fuel frames false (some header) s st out out
        ≡ some (stored s' (to_addr ∷ in_field_inc ∷ [])))
      × ((s'.regions out).owner ≡ unowned)
exchange_orphans drag frames header n rank fuel s st out e lo (fs, fo) room (hs, ho) own f b =
    let apart = rank-apart rank st out (f out st lo own).1 in
    let (s1, s2, run1, run2, (b2, f2, o2, others, depths)) =
      release_old n rank fuel s st out e lo fs fo room own ho.depth f b in
    (
      s2,
      exchange_owned drag fuel frames header s st out hs ho apart s1 s2 (owned_child s out st own)
          run1 run2,
      o2,
    )
