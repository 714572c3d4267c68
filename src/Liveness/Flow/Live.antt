-- ===== src/Liveness/Flow/Live.antt =====
-- Which registers are live into a label, by the paths of the graph, and the invariant of the worklist.
use verona_bc.Prelude.{ℕ, ◌≤◌, ◌<◌, ◌≡◌, true, false, ◌&&◌, ◌||◌, List, length}
use verona_bc.Bitset.{make}
use verona_bc.Bitset.Laws.{capacity}
use verona_bc.Liveness.Flow.{FlowLabel}
use verona_bc.Liveness.Flow.Kept.{at, needs, holds, kills, is_in}
use verona_bc.Liveness.Flow.Merge.{defines, Fits}

-- The register is read in the label, or in a label behind it and the label holds no value for it.
pub data LiveAt (labels : List FlowLabel) (r : ℕ) : ℕ → Type 0 where
  read_here : {id : ℕ} → needs labels id r ≡ true → LiveAt labels r id
  read_later :
      {id s : ℕ}
      → is_in s (at labels id).succ ≡ true
      → holds labels id r ≡ false
      → LiveAt labels r s
      → LiveAt labels r id

-- The register is defined in the label, or in a label behind it.
pub data DefinedAt (labels : List FlowLabel) (r : ℕ) : ℕ → Type 0 where
  defined_here : {id : ℕ} → defines labels id r ≡ true → DefinedAt labels r id
  defined_later :
      {id s : ℕ} → is_in s (at labels id).succ ≡ true → DefinedAt labels r s → DefinedAt labels r id

-- The edges lead to labels, and each label knows its predecessors, `p` of them at most.
pub record IsGraph (p : ℕ) (labels : List FlowLabel) : Type 0 where
  pub succ_in :
      (i s : ℕ) → i < length labels → is_in s (at labels i).succ ≡ true → s < length labels
  pub back :
      (i s : ℕ)
      → i < length labels
      → is_in s (at labels i).succ ≡ true
      → is_in i (at labels s).pred ≡ true
  pub pred_in :
      (i s : ℕ) → i < length labels → is_in s (at labels i).pred ≡ true → s < length labels
  pub pred_size : (i : ℕ) → i < length labels → length (at labels i).pred ≤ p

pub record Inv (n : ℕ) (xs ys : List FlowLabel) (q : List ℕ) : Type 0 where
  pub size : length ys ≡ length xs
  pub fits : Fits n ys
  pub pred : (i : ℕ) → (at ys i).pred ≡ (at xs i).pred
  pub succ : (i : ℕ) → (at ys i).succ ≡ (at xs i).succ
  pub dead : (i : ℕ) → (at ys i).state.dead ≡ (at xs i).state.dead
  pub sound : (i r : ℕ) → r < capacity (make n) → needs ys i r ≡ true → LiveAt xs r i
  pub defd_sound : (i r : ℕ) → r < n → defines ys i r ≡ true → DefinedAt xs r i
  pub start_in : (i r : ℕ) → r < capacity (make n) → needs xs i r ≡ true → needs ys i r ≡ true
  pub start_out : (i r : ℕ) → r < capacity (make n) → holds xs i r ≡ true → holds ys i r ≡ true
  pub out_comes :
      (i r : ℕ)
      → r < capacity (make n)
      → holds ys i r ≡ true
      → (holds xs i r || needs ys i r) ≡ true
  pub settled :
      (i s r : ℕ)
      → i < length xs
      → r < capacity (make n)
      → is_in i q ≡ false
      → is_in s (at xs i).succ ≡ true
      → needs ys s r ≡ true
      → (needs ys i r || holds xs i r) ≡ true
  pub clear :
      (i s r : ℕ)
      → i < length xs
      → r < n
      → is_in i q ≡ false
      → is_in s (at xs i).succ ≡ true
      → (needs ys s r && kills xs i r) ≡ false
  pub queued : (i : ℕ) → is_in i q ≡ true → i < length xs
