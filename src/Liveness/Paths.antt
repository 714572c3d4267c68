-- ===== src/Liveness/Paths.antt =====
-- The pass as a whole, from the statements of the bodies to the sets of the labels: liveness by the paths of
-- the program.
pub mod Tests
use native.Mathlib.Decide.{ℕ_discrete}
use verona_bc.Prelude.{
  ℕ, ◌+◌, ◌<◌, ◌≡◌, ◌≢◌, ◌⊎◌, Bool, true, false, ◌&&◌, ◌||◌, Option, none, some, List, [], ◌∷◌,
  ◌==◌, length, get_or, All,
}
use verona_bc.Bitset.{Bitset, make}
use verona_bc.Bitset.Laws.{capacity, IsWords}
use verona_bc.Label.{LabelState, Tree}
use verona_bc.Liveness.Flow.{FlowLabel, Flowed, failed}
use verona_bc.Liveness.Flow.Kept.{at, kills as kills_in, is_in}
use verona_bc.Liveness.Flow.Live.{IsGraph, Inv}
use verona_bc.Liveness.Body.{Pass, analyse}
use verona_bc.Liveness.Body.Statements.{Access, Statement, body_accesses}
use verona_bc.Liveness.Body.Sets.{target, reads, kills, reads_first, IsNamed}
use verona_bc.Liveness.Body.Exact.{start}

abbrev pub body_of : List (List Statement) → ℕ → List Access
body_of bodies i = body_accesses (get_or bodies i [])

abbrev pub names : List Access → ℕ → Bool
names [] r = false
names (a ∷ rest) r = target a == r || names rest r

-- A path from the label through labels that do not name the register, to one whose first access reads it.
pub data ReadFrom (bodies : List (List Statement)) (labels : List FlowLabel) (r : ℕ)
    : ℕ → Type 0 where
  reads_now : {i : ℕ} → reads_first (body_of bodies i) r ≡ true → ReadFrom bodies labels r i
  reads_behind :
      {i s : ℕ}
      → names (body_of bodies i) r ≡ false
      → is_in s (at labels i).succ ≡ true
      → ReadFrom bodies labels r s
      → ReadFrom bodies labels r i

-- The state of each label is what the traversal of its body has left, without an error.
abbrev pub IsAnalysed : ℕ → Bitset → List FlowLabel → List (List Statement) → Type 0
IsAnalysed n vars labels bodies =
    (i : ℕ)
    → i < length labels
    → All (IsNamed n) (body_of bodies i)
      × (tree : Tree) × (q : Pass) × (analyse vars (start n tree) (get_or bodies i []) ≡ some q)
      × (q.error ≡ false)
      × (q.state ≡ (at labels i).state)
