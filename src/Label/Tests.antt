-- ===== src/Label/Tests.antt =====
-- Tests of LabelState, on three registers: the first live, the second dead, the third unknown.
use verona_bc.Prelude.{
  ℕ, ◌<◌, ◌≡◌, Bool, true, false, not, ◌&&◌, ◌||◌, none, some, [], ◌∷◌, arith, refl,
}
use verona_bc.Bitset.Laws.{has}
use verona_bc.Label.{arg_copy, arg_move, LabelState, use_register, kill, move_at}
use verona_bc.Label.Apart.{IsInRange, IsApart, kill-IsApart, use_register-IsApart}
use verona_bc.Label.Define.{DefKeeps, def-IsApart}

abbrev three : LabelState
three = record {
  first_def = none ∷ none ∷ none ∷ [];
  first_use = some 4 ∷ none ∷ none ∷ [];
  last_use = some 4 ∷ none ∷ none ∷ [];
  live_in = record { bits = 3 ∷ [] };
  defd = record { bits = 0 ∷ [] };
  dead = record { bits = 2 ∷ [] };
  live_out = record { bits = 1 ∷ [] };
  used = record { bits = 3 ∷ [] };
}

three-IsInRange : (r : ℕ) → r < 3 → IsInRange three r
three-IsInRange r h = (
  omega arith,
  omega arith,
  omega arith,
  omega arith,
  omega arith,
  omega arith,
  omega arith,
  omega arith,
)

kill-IsApart_example :
    (ok : Bool) × (s' : LabelState) × (kill three 0 ≡ some (ok, s'))
    × (ok ≡ not (has three.dead 0))
    × (has s'.dead 0 ≡ true)
    × ((ok && (has s'.live_out 0 || not (has s'.used 0))) ≡ false)
    × IsApart s' 0
kill-IsApart_example = kill-IsApart three 0 0 (three-IsInRange 0 (omega arith)) (refl, refl)

use_register-IsApart_example :
    (ok : Bool) × (s' : LabelState) × (use_register three 2 7 ≡ some (ok, s'))
    × (ok ≡ not (has three.dead 2))
    × ((ok && not (has s'.live_out 2 && has s'.used 2)) ≡ false)
    × IsApart s' 1
use_register-IsApart_example =
    use_register-IsApart three 2 7 1 (three-IsInRange 2 (omega arith)) (refl, refl)

def-IsApart_example : DefKeeps three (λ k. arg_copy) 0 8 true 0
def-IsApart_example =
    def-IsApart three (λ k. arg_copy) 0 8 0 true (three-IsInRange 0 (omega arith)) (refl, refl)
      (refl, refl)

-- The last use of a live variable becomes a move when the variable is assigned again.
again_moves : move_at (λ k. arg_copy) 4 4 ≡ arg_move
unfolding move_at
again_moves = refl
