-- ===== src/Vbci/WriteBarrier/Drops.antt =====
-- `drop`: a field that refers to a region on the heap is finalized.
use verona_bc.Prelude.{ℕ, ◌≤◌, ◌≡◌, Bool, true, false}
use verona_bc.Vbci.Regions.{Store, child_of}
use verona_bc.Vbci.WriteBarrier.{on_frame}
use verona_bc.Vbci.WriteBarrier.Plan.{IsHeap}

-- Storage `st` refers to region `r`: from a frame, where the reference is one of those outside, or from the
-- parent of `r`.
abbrev pub RefersTo : Bool → Store → (ℕ → ℕ) → ℕ → ℕ → Type 0
RefersTo true s e st r = (on_frame s st ≡ true) × (1 ≤ e r)
RefersTo false s e st r = IsHeap s st × ((s.regions r).owner ≡ child_of st)
