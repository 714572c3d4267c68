-- ===== src/Liveness/Flow.antt =====
-- The backward data flow of virc/passes/liveness.cc over the labels of a function. `none` is an access out
-- of range.
pub mod Kept
pub mod Merge
pub mod Gather
pub mod Dead
pub mod Settle
pub mod Visit
pub mod Live
pub mod Next
pub mod Loop
pub mod Exact
pub mod Tests
use verona_bc.Prelude.{
  ℕ, zero, suc, ◌+◌, Bool, true, false, not, ◌&&◌, Option, none, some, List, [], ◌∷◌, ◌++◌, ◌==◌,
  if◌then◌else◌, get_elem?, set, length,
}
use verona_bc.Prelude.Fallible.{◌>>=◌}
use verona_bc.Bitset.{Bitset, make, test, and_with, or_with, complement, is_nonempty, differs}
use verona_bc.Label.{LabelState}

-- A label with the edges that assign_ids has built.
pub record FlowLabel : Type 0 where
  pub state : LabelState
  pub pred : List ℕ
  pub succ : List ℕ

abbrev pub with_state : FlowLabel → LabelState → FlowLabel
with_state l s = record l { state = s }

abbrev pub same_node : Option ℕ → Option ℕ → Bool
same_node none none = true
same_node none (some n) = false
same_node (some m) none = false
same_node (some m) (some n) = m == n

-- `if (succ.defd.test(r) && !l.first_def.at(r)) l.first_def[r] = succ.first_def.at(r)`.
abbrev pub merge_first_def : LabelState → LabelState → ℕ → Option LabelState
merge_first_def l succ r = do
  defines ← test succ.defd r
  if not defines then some l else (do
    mine ← get_elem? l.first_def r
    elim mine [
      | some n ↦ some l
      | none ↦ (do
        theirs ← get_elem? succ.first_def r
        some (record l { first_def = set l.first_def r theirs }))
    ])

-- `if (succ.first_use[r]) l.first_use[r] = succ.first_use.at(r)`.
abbrev pub merge_first_use : LabelState → LabelState → ℕ → Option LabelState
merge_first_use l succ r = do
  theirs ← get_elem? succ.first_use r
  elim theirs [
    | none ↦ some l
    | some n ↦ some (record l { first_use = set l.first_use r (some n) })
  ]

-- The loop over the registers, `count` of them from `r` on.
pub merge_firsts : ℕ → ℕ → LabelState → LabelState → Option LabelState
merge_firsts zero r l succ = some l
merge_firsts (suc count) r l succ = do
  l' ← merge_first_def l succ r
  l'' ← merge_first_use l' succ r
  merge_firsts count (suc r) l'' succ

-- The first register of `redef` whose definitions differ, by the node that the error is about.
pub find_redef : ℕ → ℕ → Bitset → LabelState → LabelState → Option (Option (Option ℕ))
find_redef zero r redef l succ = some none
find_redef (suc count) r redef l succ = do
  again ← test redef r
  if not again then find_redef count (suc r) redef l succ else (do
    mine ← get_elem? l.first_def r
    theirs ← get_elem? succ.first_def r
    if same_node mine theirs then find_redef count (suc r) redef l succ else some (some theirs))

-- The first register that is live into `succ` and dead in `l`.
pub find_dead : ℕ → ℕ → LabelState → LabelState → Option (Option (Option ℕ))
find_dead zero r l succ = some none
find_dead (suc count) r l succ = do
  needed ← test succ.live_in r
  is_dead ← test l.dead r
  if needed && is_dead
      then (do blamed ← get_elem? succ.first_use r; some (some blamed))
      else find_dead count (suc r) l succ

pub data FlowError : Type 0 where
  redefines_register : Option ℕ → FlowError
  requires_dead : Option ℕ → FlowError

-- What the loops over the successors leave: the sets `new_out` and `new_defd`, or an error.
pub data Gathered : Type 0 where
  gathered : List FlowLabel → Bitset → Bitset → Gathered
  refused : FlowError → List FlowLabel → Gathered

-- One successor. Both labels are read from the list, since they may be the same one.
abbrev pub merge_succ : ℕ → Bitset → ℕ → List FlowLabel → Bitset → Bitset → ℕ → Option Gathered
merge_succ registers vars id labels new_out new_defd succ_id = do
  l ← get_elem? labels id
  succ ← get_elem? labels succ_id
  new_out' ← or_with new_out succ.state.live_in
  new_defd' ← or_with new_defd succ.state.defd
  both ← and_with l.state.defd succ.state.defd
  redef ← and_with both (complement vars)
  merged ← merge_firsts registers 0 l.state succ.state
  let labels' = set labels id (with_state l merged) in
      if is_nonempty redef
      then (do
        succ' ← get_elem? labels' succ_id
        found ← find_redef registers 0 redef merged succ'.state
        elim found [
          | none ↦ some (gathered labels' new_out' new_defd')
          | some blamed ↦ some (refused (redefines_register blamed) labels')
        ])
      else some (gathered labels' new_out' new_defd')

pub merge_succs : ℕ → Bitset → ℕ → List FlowLabel → Bitset → Bitset → List ℕ → Option Gathered
merge_succs registers vars id labels new_out new_defd [] = some (gathered labels new_out new_defd)
merge_succs registers vars id labels new_out new_defd (s ∷ ss) = do
  step ← merge_succ registers vars id labels new_out new_defd s
  elim step [
    | gathered labels' new_out' new_defd' ↦
        merge_succs registers vars id labels' new_out' new_defd' ss
    | refused e labels' ↦ some (refused e labels')
  ]

pub check_succs : ℕ → List FlowLabel → LabelState → List ℕ → Option (Option (Option ℕ))
check_succs registers labels l [] = some none
check_succs registers labels l (s ∷ ss) = do
  succ ← get_elem? labels s
  found ← find_dead registers 0 l succ.state
  elim found [ none ↦ check_succs registers labels l ss | some blamed ↦ some (some blamed) ]

-- `if (new_out & l.dead)`, with the search for the register that is to blame.
pub check_dead : ℕ → List FlowLabel → LabelState → Bitset → List ℕ → Option (Option (Option ℕ))
unfolding check_succs
check_dead registers labels l new_out succs = do
  needed ← and_with new_out l.dead
  if is_nonempty needed then check_succs registers labels l succs else some none

pub data Round : Type 0 where
  went : List FlowLabel → List ℕ → Round
  stopped : FlowError → List FlowLabel → Round

-- The end of a round: the new sets of label `id`, and its predecessors behind the queue.
pub settle : ℕ → List FlowLabel → List ℕ → FlowLabel → Bitset → Bitset → Option Round
settle id labels queue l new_out new_defd = do
  defd ← or_with l.state.defd new_defd
  rest ← and_with new_out (complement l.state.live_out)
  new_in ← or_with rest l.state.live_in
  if differs new_in l.state.live_in
      then some (
          went
            (set labels id (
              with_state l
                (record (l.state) { defd = defd; live_in = new_in; live_out = new_out })))
            (queue ++ l.pred))
      else some (went (set labels id (with_state l (record (l.state) { defd = defd }))) queue)

-- A round of the `while` loop, for the label `id` that has left the front of the queue.
pub visit : ℕ → Bitset → List FlowLabel → ℕ → List ℕ → Option Round
unfolding merge_succs check_dead settle
visit registers vars labels id queue = do
  l ← get_elem? labels id
  step ← merge_succs registers vars id labels l.state.live_out (make registers) l.succ
  elim step [
    | refused e labels' ↦ some (stopped e labels')
    | gathered labels' new_out new_defd ↦ (do
      l' ← get_elem? labels' id
      found ← check_dead registers labels' l'.state new_out l'.succ
      elim found [
        | some blamed ↦ some (stopped (requires_dead blamed) labels')
        | none ↦ settle id labels' queue l' new_out new_defd
      ])
  ]

pub data Flowed : Type 0 where
  flowed : List FlowLabel → Flowed
  failed : FlowError → List FlowLabel → Flowed
  out_of_fuel : Flowed

pub run : ℕ → ℕ → Bitset → List FlowLabel → List ℕ → Option Flowed
run fuel registers vars labels [] = some (flowed labels)
run zero registers vars labels (id ∷ queue) = some out_of_fuel
run (suc fuel) registers vars labels (id ∷ queue) = do
  round ← visit registers vars labels id queue
  elim round [
    | stopped e labels' ↦ some (failed e labels')
    | went labels' queue' ↦ run fuel registers vars labels' queue'
  ]

-- `for (i = 0; i < labels.size(); i++) wl.push(i)`.
pub all_labels : ℕ → List ℕ
all_labels zero = []
all_labels (suc n) = all_labels n ++ n ∷ []

pub flow : ℕ → ℕ → Bitset → List FlowLabel → Option Flowed
unfolding run all_labels
flow fuel registers vars labels = run fuel registers vars labels (all_labels (length labels))
