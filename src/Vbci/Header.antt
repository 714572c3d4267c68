-- ===== src/Vbci/Header.antt =====
-- The headers of objects as far as frozen ones are linked: `Header` of vbci/header.h with find, the
-- representative of a strongly connected component.
pub mod Find
pub mod Tests
use verona_bc.Prelude.{ℕ, zero, suc, Bool, true, false, Option, none, some, ◌==◌, if◌then◌else◌}
use verona_bc.Prelude.Fallible.{◌>>=◌}
use verona_bc.Vbci.Location.{is_scc_ptr, scc_ptr, scc_target}

-- The union of the counts is left out.
pub record Header : Type 0 where
  pub loc : ℕ
  pub type_id : ℕ

abbrev pub set_location : (ℕ → Header) → ℕ → ℕ → ℕ → Header
set_location headers h l x = if x == h then record (headers h) { loc = l } else headers x

-- Path compression: `h` points to the root that has been found from its target.
abbrev pub point_to : ℕ → ℕ → ℕ × (ℕ → Header) → ℕ × (ℕ → Header)
point_to h target found =
    if found.0 == target then found else (found.0, set_location found.1 h (scc_ptr found.0))

-- The fuel is for the chain of SCC pointers.
pub find : ℕ → (ℕ → Header) → ℕ → Option (ℕ × (ℕ → Header))
find zero headers h = none
find (suc fuel) headers h =
    if is_scc_ptr (headers h).loc
    then (do
      target ← scc_target (headers h).loc
      found ← find fuel headers target
      some (point_to h target found))
    else some (h, headers)
