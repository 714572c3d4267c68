-- ===== src/Liveness/Body.antt =====
-- The traversal of the bodies by virc/passes/liveness.cc: each access changes the state of the label, and one
-- that is refused leaves an error in the tree and goes on.
pub mod Statements
pub mod Sets
pub mod Exact
pub mod Tests
use verona_bc.Prelude.{
  ℕ, Bool, true, false, not, ◌||◌, Option, none, some, List, [], ◌∷◌, if◌then◌else◌,
}
use verona_bc.Prelude.Fallible.{◌>>=◌}
use verona_bc.Bitset.{Bitset, test}
use verona_bc.Label.{LabelState, Tree, Defined, rejected, def, use_register, kill}
use verona_bc.Label
use verona_bc.Liveness.Body.Statements.{
  Place, Access, used, killed, defined, referenced, Statement, body_accesses,
}

-- The state of the label, the tree, and whether an error was reported.
pub record Pass : Type 0 where
  pub state : LabelState
  pub tree : Tree
  pub error : Bool

pub define : Bitset → Pass → Place → Option Pass
define vars p place = do
  var ← test vars place.register
  made ← def p.state p.tree place.register place.at_node var
  elim made [
    | Label.defined s tree ↦ some (record p { state = s; tree = tree })
    | rejected e s ↦ some (record p { state = s; error = true })
  ]

pub access : Bitset → Pass → Access → Option Pass
unfolding define
access vars p (used place) = do
  made ← use_register p.state place.register place.at_node
  some (record p { state = made.1; error = p.error || not made.0 })
access vars p (killed place) = do
  made ← kill p.state place.register
  some (record p { state = made.1; error = p.error || not made.0 })
access vars p (defined place) = define vars p place
access vars p (referenced source place) = do
  var ← test vars source.register
  if var then define vars p place else some (record p { error = true })

pub traverse : Bitset → Pass → List Access → Option Pass
unfolding access
traverse vars p [] = some p
traverse vars p (a ∷ rest) = do p' ← access vars p a; traverse vars p' rest

-- The body of a label.
pub analyse : Bitset → Pass → List Statement → Option Pass
unfolding traverse body_accesses
analyse vars p body = traverse vars p (body_accesses body)
