-- ===== src/Liveness/Paths/Tests.antt =====
-- A run of the pass: a label defines a register, a loop does not name it, the label behind the loop returns it.
use verona_bc.Prelude.{List, [], ◌∷◌, refl}
use verona_bc.Liveness.Flow.Tests.{chain}
use verona_bc.Liveness.Body.Statements.{Statement, body_accesses}
use verona_bc.Liveness.Body.Tests.{defining, returning}
use verona_bc.Liveness.Paths.{ReadFrom, reads_now, reads_behind}

abbrev bodies : List (List Statement)
bodies = defining ∷ [] ∷ returning ∷ []

-- The path through the loop label.
loop_path : ReadFrom bodies (chain 0 1) 0 1
unfolding body_accesses
loop_path = reads_behind {s = 2} refl refl (reads_now refl)
