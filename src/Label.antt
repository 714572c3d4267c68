-- ===== src/Label.antt =====
-- `LabelState` of virc/model/compilation.h and compilation.cc: what the liveness analysis of VIRC knows
-- of the registers in one label. An access out of range, checked or not, is `none`.
pub mod Apart
pub mod Define
pub mod Effect
pub mod Fresh
pub mod Tests
use verona_bc.Prelude.{
  ℕ, Bool, true, false, Option, none, some, List, ◌==◌, if◌then◌else◌, get_elem?, resize, set,
}
use verona_bc.Prelude.Fallible.{◌>>=◌}
use verona_bc.Bitset.{Bitset, test, set_bit, reset_bit, resize_set}

-- Where a node of the IR tree stands: what its parent makes of the register it names.
pub data Site : Type 0 where
  arg_copy : Site
  arg_move : Site
  copied : Site
  moved : Site
  elsewhere : Site

-- The tree, as far as the analysis changes it: the place of each node, by the node's number.
abbrev pub Tree : Type 0
Tree = ℕ → Site

-- `in` and `out` are live_in and live_out.
pub record LabelState : Type 0 where
  pub first_def : List (Option ℕ)
  pub first_use : List (Option ℕ)
  pub last_use : List (Option ℕ)
  pub live_in : Bitset
  pub defd : Bitset
  pub dead : Bitset
  pub live_out : Bitset
  pub used : Bitset

unfoldable pub resize_label : LabelState → ℕ → LabelState
resize_label s size = record {
  first_def = resize size none s.first_def;
  first_use = resize size none s.first_use;
  last_use = resize size none s.last_use;
  live_in = resize_set s.live_in size;
  defd = resize_set s.defd size;
  dead = resize_set s.dead size;
  live_out = resize_set s.live_out size;
  used = resize_set s.used size;
}

pub data DefError : Type 0 where
  redefinition : DefError
  use_before_def : DefError

to_move : Site → Site
to_move arg_copy = arg_move
to_move arg_move = arg_move
to_move copied = moved
to_move moved = moved
to_move elsewhere = elsewhere

abbrev pub assign_at : List (Option ℕ) → ℕ → Option ℕ → Option (List (Option ℕ))
assign_at v r n = do old ← get_elem? v r; some (set v r n)

-- `if (!v.at(r)) v[r] = node`.
abbrev pub mark_first : List (Option ℕ) → ℕ → ℕ → Option (List (Option ℕ))
mark_first v r node = do
  old ← get_elem? v r
  elim old [ none ↦ some (set v r (some node)) | some n ↦ some v ]

-- The parent of node `n` replaced by the move.
pub move_at : Tree → ℕ → Tree
unfolding to_move
move_at tree n k = if k == n then to_move (tree k) else tree k

pub automove : LabelState → Tree → ℕ → Option (LabelState × Tree)
automove s tree r = do
  last ← get_elem? s.last_use r
  elim last [
    | none ↦ some (s, tree)
    | some n ↦ some (record s { last_use = set s.last_use r none }, move_at tree n)
  ]

-- The state that a refusal leaves, with its message, or the state and tree of a success.
pub data Defined : Type 0 where
  defined : LabelState → Tree → Defined
  rejected : DefError → LabelState → Defined

note_def : LabelState → Tree → ℕ → ℕ → Option Defined
note_def s tree r node = do
  first_def ← mark_first s.first_def r node
  first_use ← mark_first s.first_use r node
  last_use ← assign_at s.last_use r none
  some (
      defined (record s { first_def = first_def; first_use = first_use; last_use = last_use }) tree)

-- `var` tells that the register is a variable, which may be assigned again.
unfoldable pub def : LabelState → Tree → ℕ → ℕ → Bool → Option Defined
unfolding automove note_def
def s tree r node var = do
  again ← (if var then some false else test s.defd r)
  if again then some (rejected redefinition s) else do
    defd ← set_bit s.defd r
    let s' = record s { defd = defd } in
        do
          early ← (if var then some false else test s.live_in r)
          if early then some (rejected use_before_def s') else do
            is_live ← test s.live_out r
            if is_live
                then if var
                  then (do a ← automove s' tree r; note_def a.0 a.1 r node)
                  else some (rejected redefinition s')
                else do
                  live_out ← set_bit s.live_out r
                  dead ← reset_bit s.dead r
                  note_def (record s' { live_out = live_out; dead = dead }) tree r node

unfoldable pub use_register : LabelState → ℕ → ℕ → Option (Bool × LabelState)
use_register s r node = do
  is_dead ← test s.dead r
  if is_dead then some (false, s) else do
    used ← set_bit s.used r
    is_live ← test s.live_out r
    live_out ← (if is_live then some s.live_out else set_bit s.live_out r)
    live_in ← (if is_live then some s.live_in else set_bit s.live_in r)
    first_use ← mark_first s.first_use r node
    last_use ← assign_at s.last_use r (some node)
    some (
      true,
      record s {
        first_use = first_use;
        last_use = last_use;
        live_in = live_in;
        live_out = live_out;
        used = used;
      },
    )

unfoldable pub kill : LabelState → ℕ → Option (Bool × LabelState)
kill s r = do
  is_dead ← test s.dead r
  if is_dead then some (false, s) else do
    used ← set_bit s.used r
    is_live ← test s.live_out r
    live_out ← (if is_live then reset_bit s.live_out r else some s.live_out)
    live_in ← (if is_live then some s.live_in else set_bit s.live_in r)
    dead ← set_bit s.dead r
    last_use ← assign_at s.last_use r none
    some (
      true,
      record s {
        last_use = last_use;
        live_in = live_in;
        dead = dead;
        live_out = live_out;
        used = used;
      },
    )
