-- ===== src/Label/Define.antt =====
-- What `def` of LabelState refuses, does and keeps, at every register.
use verona_bc.Prelude.{
  ℕ, ◌<◌, ◌≡◌, Bool, true, false, not, ◌&&◌, ◌||◌, Option, none, some, List, arith, refl, inl, inr,
  get_elem?-eq-get_or, length, length-set, ◌⊎◌, set, Bool-cases, Option-cases, get_or,
}
use verona_bc.Prelude.Fallible.{◌>>=◌}
use verona_bc.Bitset.Laws.{has, put, clear, test_in, set_bit_in, reset_bit_in, has-put, has-clear}
use verona_bc.Label.{
  LabelState, Tree, Defined, defined, rejected, redefinition, use_before_def, automove, move_at,
  DefError, note_def, def,
}
use verona_bc.Label.Apart.{IsInRange, IsApart, mark_with, mark_first_in}

abbrev pub state_of : Defined → LabelState
state_of (defined s tree) = s
state_of (rejected e s) = s

abbrev pub is_accepted : Defined → Bool
is_accepted (defined s tree) = true
is_accepted (rejected e s) = false

abbrev pub noted : LabelState → ℕ → ℕ → LabelState
noted s r node = record s {
  first_def = mark_with s.first_def r node (get_or s.first_def r none);
  first_use = mark_with s.first_use r node (get_or s.first_use r none);
  last_use = set s.last_use r none;
}

note_def_in :
    (s : LabelState) (tree : Tree) (r node : ℕ)
    → r < length s.first_def
    → r < length s.first_use
    → r < length s.last_use
    → note_def s tree r node ≡ some (defined (noted s r node) tree)
unfolding note_def
note_def_in s tree r node f g l =
    rw
      (
        mark_first_in s.first_def r node f,
        mark_first_in s.first_use r node g,
        get_elem?-eq-get_or s.last_use r none l,
      )
      refl

abbrev pub with_defd : LabelState → ℕ → LabelState
with_defd s r = record s { defd = put s.defd r }

-- A register that may be defined, and is not live.
pub def_idle :
    (s : LabelState) (tree : Tree) (r node : ℕ) (var : Bool)
    → IsInRange s r
    → (not var && (has s.defd r || has s.live_in r)) ≡ false
    → has s.live_out r ≡ false
    → def s tree r node var
      ≡ some (
          defined
            (noted
              (record s { defd = put s.defd r; live_out = put s.live_out r; dead = clear s.dead r })
              r
              node)
            tree)
unfolding def
def_idle s tree r node true (f, g, l, i, d, e, o, u) may lv =
    rw
      (
        set_bit_in s.defd r d,
        test_in s.live_out r o,
        lv,
        set_bit_in s.live_out r o,
        reset_bit_in s.dead r e,
      )
      (note_def_in _ tree r node f g l)
def_idle s tree r node false (f, g, l, i, d, e, o, u) may lv =
    let nd : has s.defd r ≡ false = ground arith in
    let ni : has s.live_in r ≡ false = ground arith in
    rw
      (
        test_in s.defd r d,
        nd,
        set_bit_in s.defd r d,
        test_in s.live_in r i,
        ni,
        test_in s.live_out r o,
        lv,
        set_bit_in s.live_out r o,
        reset_bit_in s.dead r e,
      )
      (note_def_in _ tree r node f g l)

automove_in :
    (s : LabelState) (tree : Tree) (r : ℕ)
    → r < length s.last_use
    → (lu : List (Option ℕ)) × (tree' : Tree) × (automove s tree r
        ≡ some (record s { last_use = lu }, tree'))
      × (length lu ≡ length s.last_use)
unfolding automove
automove_in s tree r h = elim (Option-cases (get_or s.last_use r none)) [
  | inl n ↦ (s.last_use, tree, rw (get_elem?-eq-get_or s.last_use r none h, n) refl, refl)
  | inr (k, n) ↦ (
    set s.last_use r none,
    move_at tree k,
    rw (get_elem?-eq-get_or s.last_use r none h, n) refl,
    length-set s.last_use r none,
  )
]

-- A variable that is live: the last use of its old value becomes a move.
pub def_again :
    (s : LabelState) (tree : Tree) (r node : ℕ)
    → IsInRange s r
    → has s.live_out r ≡ true
    → (lu : List (Option ℕ)) × (tree' : Tree) × (def s tree r node true
        ≡ some (defined (noted (record s { defd = put s.defd r; last_use = lu }) r node) tree'))
      × (length lu ≡ length s.last_use)
unfolding def
def_again s tree r node (f, g, l, i, d, e, o, u) lv =
    let (lu, tree', a, fits) = automove_in (with_defd s r) tree r l in
    (
      lu,
      tree',
      rw (set_bit_in s.defd r d, test_in s.live_out r o, lv, a, ◌>>=◌)
          (note_def_in _ tree' r node f g (omega arith)),
      fits,
    )

-- What is refused, and the state that the refusal leaves.
pub def_refused :
    (s : LabelState) (tree : Tree) (r node : ℕ)
    → IsInRange s r
    → (has s.defd r || (has s.live_in r || has s.live_out r)) ≡ true
    → (e : DefError) × (s' : LabelState) × (def s tree r node false ≡ some (rejected e s'))
      × ((s' ≡ s) ⊎ (s' ≡ with_defd s r))
unfolding def
def_refused s tree r node (f, g, l, i, d, e, o, u) bad = elim (Bool-cases (has s.defd r)) [
  | inl again ↦ (redefinition, s, rw (test_in s.defd r d, again) refl, inl refl)
  | inr nd ↦ elim (Bool-cases (has s.live_in r)) [
    | inl early ↦ (
      use_before_def,
      with_defd s r,
      rw (test_in s.defd r d, nd, set_bit_in s.defd r d, test_in s.live_in r i, early) refl,
      inr refl,
    )
    | inr ni ↦
        let lv : has s.live_out r ≡ true = ground arith in
        (
          redefinition,
          with_defd s r,
          rw
              (
                test_in s.defd r d,
                nd,
                set_bit_in s.defd r d,
                test_in s.live_in r i,
                ni,
                test_in s.live_out r o,
                lv,
              )
              refl,
          inr refl,
        )
  ]
]

-- The register may be defined: it is a variable, or it is not defined, required or live so far.
abbrev pub may_define : LabelState → ℕ → Bool → Bool
may_define s r var = var || not (has s.defd r || (has s.live_in r || has s.live_out r))

abbrev pub DefKeeps : LabelState → Tree → ℕ → ℕ → Bool → ℕ → Type 0
DefKeeps s tree r node var i =
    (p : Defined) × (def s tree r node var ≡ some p)
    × (is_accepted p ≡ may_define s r var)
    × ((is_accepted p && not (has (state_of p).defd r)) ≡ false)
    × ((is_accepted p && not (has (state_of p).live_out r && not (has (state_of p).dead r)))
        ≡ false)
    × IsApart (state_of p) i

def_idle-DefKeeps :
    (s : LabelState) (tree : Tree) (r node i : ℕ) (var : Bool)
    → IsInRange s r
    → IsApart s i
    → may_define s r var ≡ true
    → has s.live_out r ≡ false
    → DefKeeps s tree r node var i
def_idle-DefKeeps s tree r node j var (f, g, l, i, d, e, o, u) h may idle = (
  _,
  def_idle s tree r node var (f, g, l, i, d, e, o, u) (ground arith) idle,
  ground arith,
  ground (arith, has-put s.defd r r d),
  ground (arith, has-put s.live_out r r o, has-clear s.dead r r e),
  (ground (arith, h.0, has-put s.live_out r j o, has-clear s.dead r j e), h.1),
)

def_again-DefKeeps :
    (s : LabelState) (tree : Tree) (r node i : ℕ)
    → IsInRange s r
    → IsApart s r
    → IsApart s i
    → has s.live_out r ≡ true
    → DefKeeps s tree r node true i
def_again-DefKeeps s tree r node j (f, g, l, i, d, e, o, u) hr h live =
    let (lu, tree', run, fits) = def_again s tree r node (f, g, l, i, d, e, o, u) live in
    (_, run, refl, ground (arith, has-put s.defd r r d), ground (arith, live, hr.0), h)

def_refused-DefKeeps :
    (s : LabelState) (tree : Tree) (r node i : ℕ)
    → IsInRange s r
    → IsApart s i
    → (has s.defd r || (has s.live_in r || has s.live_out r)) ≡ true
    → DefKeeps s tree r node false i
def_refused-DefKeeps s tree r node j within h bad =
    let (e, s', run, left) = def_refused s tree r node within bad in
    elim left [
      | inl same ↦ (rejected e s', run, rw bad refl, refl, refl, rw same h)
      | inr more ↦ (rejected e s', run, rw bad refl, refl, refl, rw more h)
    ]

-- At a register in range `def` does not throw. It accepts exactly a variable, or a register that is not
-- defined, required or live so far; an accepted register is defined, live and not dead behind it, given
-- that it was not live and dead before. It makes no register live and dead at once, and none live on
-- entry that is not used.
pub def-IsApart :
    (s : LabelState) (tree : Tree) (r node i : ℕ) (var : Bool)
    → IsInRange s r
    → IsApart s r
    → IsApart s i
    → DefKeeps s tree r node var i
def-IsApart s tree r node i true within hr h = elim (Bool-cases (has s.live_out r)) [
  | inl live ↦ def_again-DefKeeps s tree r node i within hr h live
  | inr idle ↦ def_idle-DefKeeps s tree r node i true within h refl idle
]
def-IsApart s tree r node i false within hr h = elim (Bool-cases (may_define s r false)) [
  | inl may ↦ def_idle-DefKeeps s tree r node i false within h may (ground arith)
  | inr bad ↦ def_refused-DefKeeps s tree r node i within h (ground arith)
]
