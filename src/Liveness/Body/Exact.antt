-- ===== src/Liveness/Body/Exact.antt =====
-- The body of a new label, from its statements to its sets.
use verona_bc.Prelude.{ℕ, ◌≤◌, ◌<◌, ◌≡◌, false, some, List, refl, All}
use verona_bc.Bitset.{Bitset}
use verona_bc.Bitset.Laws.{has, capacity}
use verona_bc.Label.{Tree}
use verona_bc.Label.{resize_label}
use verona_bc.Label.Fresh.{new_label, resize_label-IsApart, nothing_yet}
use verona_bc.Liveness.Body.{Pass, analyse}
use verona_bc.Liveness.Body.Statements.{Statement, body_accesses}
use verona_bc.Liveness.Body.Sets.{
  reads_first, ends_dead, ends_live, defines_any, IsNamed, IsSound, traverse_in,
}

-- Before the first statement of a label of a function with `n` registers.
abbrev pub start : ℕ → Tree → Pass
start n tree = record { state = resize_label new_label n; tree = tree; error = false }

start-IsSound : (n : ℕ) (tree : Tree) → IsSound n (start n tree).state
start-IsSound n tree = (
  λ i h. (resize_label-IsApart new_label n i h).0,
  λ r h. (resize_label-IsApart new_label n r h).1.0,
)

-- On statements that name registers of the function only, the traversal of a new label does not throw, and
-- where it reports no error: `in` holds the registers whose first access reads them, `out` those whose last
-- access leaves them, `dead` those whose last access kills them, and `defd` those that some access defines.
pub analyse-sets :
    (n : ℕ) (vars : Bitset) (tree : Tree) (body : List Statement)
    → n ≤ capacity vars
    → All (IsNamed n) (body_accesses body)
    → (q : Pass) × (analyse vars (start n tree) body ≡ some q)
      × (q.error ≡ false
          → (r : ℕ) → r < n
          → (has q.state.live_in r ≡ reads_first (body_accesses body) r)
            × (has q.state.live_out r ≡ ends_live false (body_accesses body) r)
            × (has q.state.dead r ≡ ends_dead false (body_accesses body) r)
            × (has q.state.defd r ≡ defines_any (body_accesses body) r))
unfolding analyse
analyse-sets n vars tree body sized named =
    let (q, e, sound, sticks, sets) =
      traverse_in n vars sized (start n tree) (body_accesses body) (start-IsSound n tree) named in
    (
      q,
      e,
      λ fine r h.
          let s = sets fine r h in
          let (ni, no_out, nd, ndef) = nothing_yet n r h in
          (
            rw (s.in_has, ni, no_out, nd) refl,
            rw (s.out_has, no_out) refl,
            rw (s.dead_has, nd) refl,
            rw (s.defd_has, ndef) refl,
          ),
    )
