-- ===== src/Liveness/Body/Tests.antt =====
-- Runs of the traversal on bodies over two registers.
use verona_bc.Prelude.{ℕ, ◌<◌, ◌≡◌, false, some, none, List, [], ◌∷◌, arith, refl, All}
use verona_bc.Bitset.{test, set_bit, reset_bit, resize_set}
use verona_bc.Bitset.Laws.{has}
use verona_bc.Label.{Tree, elsewhere, def, kill, resize_label}
use verona_bc.Liveness.Flow.Tests.{made, no_vars}
use verona_bc.Liveness.Body.{Pass, analyse, traverse, access, define}
use verona_bc.Liveness.Body.Statements.{
  Place, Statement, Kind, const, add, return_op, body_accesses,
}
use verona_bc.Liveness.Body.Sets.{IsNamed, reads_first, ends_live, ends_dead, defines_any}
use verona_bc.Liveness.Body.Exact.{start, analyse-sets}

abbrev place : ℕ → ℕ → Place
place r k = record { register = r; at_node = k }

abbrev statement : Kind → ℕ → ℕ → ℕ → ℕ → Statement
statement k local lhs rhs here = record {
  kind_of = k;
  local = place local here;
  lhs = place lhs here;
  rhs = place rhs here;
  kind = place 0 here;
  value_src = place 0 here;
  arguments = [];
}

abbrev pub tree : Tree
tree k = elsewhere

abbrev pub defining : List Statement
defining = statement const 0 0 0 7 ∷ []

abbrev pub returning : List Statement
returning = statement return_op 0 0 0 9 ∷ []

-- Register 1 is the sum of register 0 with itself, and the result.
abbrev adding : List Statement
adding = statement add 1 0 0 3 ∷ statement return_op 1 0 0 4 ∷ []

adding-names : All (IsNamed 2) (body_accesses adding)
unfolding body_accesses
adding-names = omega arith

analyse-sets_example :
    (q : Pass) × (analyse no_vars (start 2 tree) adding ≡ some q)
    × (q.error ≡ false
        → (r : ℕ) → r < 2
        → (has q.state.live_in r ≡ reads_first (body_accesses adding) r)
          × (has q.state.live_out r ≡ ends_live false (body_accesses adding) r)
          × (has q.state.dead r ≡ ends_dead false (body_accesses adding) r)
          × (has q.state.defd r ≡ defines_any (body_accesses adding) r))
analyse-sets_example = analyse-sets 2 no_vars tree adding (omega arith) adding-names

-- The bodies of the labels in the runs of the dataflow.
pub defining_runs :
    analyse no_vars (start 2 tree) defining
    ≡ some (record { state = (made 0 1 0 1 (some 7) [] []).state; tree = tree; error = false })
unfolding analyse traverse access define body_accesses def resize_label test set_bit reset_bit
    resize_set
defining_runs = refl

pub idle_runs :
    analyse no_vars (start 2 tree) []
    ≡ some (record { state = (made 0 0 0 0 none [] []).state; tree = tree; error = false })
unfolding analyse traverse body_accesses resize_label resize_set
idle_runs = refl

pub returning_runs :
    analyse no_vars (start 2 tree) returning
    ≡ some (record { state = (made 1 0 1 0 none [] []).state; tree = tree; error = false })
unfolding analyse traverse access body_accesses kill resize_label test set_bit reset_bit resize_set
returning_runs = refl
