-- ===== src/Label/Apart.antt =====
-- What `use` and `kill` of LabelState keep, at every register.
use verona_bc.Prelude.{
  ℕ, ◌<◌, ◌≡◌, Bool, true, false, not, ◌&&◌, ◌||◌, Option, none, some, List, ◌==◌, arith, refl, inl,
  inr, get_elem?-eq-get_or, length, set, Bool-cases, get_or,
}
use verona_bc.Bitset.Laws.{
  has, capacity, put, clear, test_in, set_bit_in, reset_bit_in, has-put, has-clear,
}
use verona_bc.Label.{LabelState, mark_first, kill, use_register}
use native.Mathlib.Decide.{dec_le}

-- The register `r` is in range of every vector and every set.
abbrev pub IsInRange : LabelState → ℕ → Type 0
IsInRange s r =
    (r < length s.first_def)
    × (r < length s.first_use)
    × (r < length s.last_use)
    × (r < capacity s.live_in)
    × (r < capacity s.defd)
    × (r < capacity s.dead)
    × (r < capacity s.live_out)
    × (r < capacity s.used)

-- The register `i` is not both live and dead, and is used if it is live on entry.
abbrev pub IsApart : LabelState → ℕ → Type 0
IsApart s i =
    ((has s.live_out i && has s.dead i) ≡ false) × ((has s.live_in i && not (has s.used i)) ≡ false)

pub same_register :
    (s : LabelState) (r i : ℕ) → has s.dead r ≡ false → (r == i && has s.dead i) ≡ false
same_register s r i h = elim (dec_le i r) [
  | yes l ↦ elim (dec_le r i) [
    | yes l' ↦
        let e : r ≡ i = omega arith in let h' : has s.dead i ≡ false = rw e at h in ground arith
    | no l' ↦ ground arith
  ]
  | no e ↦ ground arith
]

pub kill_dead :
    (s : LabelState) (r : ℕ)
    → r < capacity s.dead
    → has s.dead r ≡ true
    → kill s r ≡ some (false, s)
unfolding kill
kill_dead s r h d = rw (test_in s.dead r h, d) refl

pub kill_live :
    (s : LabelState) (r : ℕ)
    → IsInRange s r
    → has s.dead r ≡ false
    → has s.live_out r ≡ true
    → kill s r
      ≡ some (
        true,
        record s {
          last_use = set s.last_use r none;
          dead = put s.dead r;
          live_out = clear s.live_out r;
          used = put s.used r;
        },
      )
unfolding kill
kill_live s r (f, g, l, i, d, e, o, u) nd lv =
    rw
      (
        test_in s.dead r e,
        nd,
        set_bit_in s.used r u,
        test_in s.live_out r o,
        lv,
        reset_bit_in s.live_out r o,
        set_bit_in s.dead r e,
        get_elem?-eq-get_or s.last_use r none l,
      )
      refl

pub kill_required :
    (s : LabelState) (r : ℕ)
    → IsInRange s r
    → has s.dead r ≡ false
    → has s.live_out r ≡ false
    → kill s r
      ≡ some (
        true,
        record s {
          last_use = set s.last_use r none;
          live_in = put s.live_in r;
          dead = put s.dead r;
          used = put s.used r;
        },
      )
unfolding kill
kill_required s r (f, g, l, i, d, e, o, u) nd lv =
    rw
      (
        test_in s.dead r e,
        nd,
        set_bit_in s.used r u,
        test_in s.live_out r o,
        lv,
        set_bit_in s.live_in r i,
        set_bit_in s.dead r e,
        get_elem?-eq-get_or s.last_use r none l,
      )
      refl

-- At a register in range `kill` does not throw. It refuses exactly a dead register; the register is dead
-- behind it, and used and not live unless it refuses. It makes no register live and dead at once, and
-- none live on entry that is not used.
pub kill-IsApart :
    (s : LabelState) (r i : ℕ)
    → IsInRange s r
    → IsApart s i
    → (ok : Bool) × (s' : LabelState) × (kill s r ≡ some (ok, s'))
      × (ok ≡ not (has s.dead r))
      × (has s'.dead r ≡ true)
      × ((ok && (has s'.live_out r || not (has s'.used r))) ≡ false)
      × IsApart s' i
kill-IsApart s r j (f, g, l, i, d, e, o, u) h = elim (Bool-cases (has s.dead r)) [
  | inl dead ↦ (false, s, kill_dead s r e dead, ground arith, dead, refl, h)
  | inr fresh ↦ elim (Bool-cases (has s.live_out r)) [
    | inl live ↦ (
      true,
      _,
      kill_live s r (f, g, l, i, d, e, o, u) fresh live,
      ground arith,
      ground (arith, has-put s.dead r r e),
      ground (arith, has-clear s.live_out r r o, has-put s.used r r u),
      (
        ground (arith, h.0, has-put s.dead r j e, has-clear s.live_out r j o),
        ground (arith, h.1, has-put s.used r j u),
      ),
    )
    | inr idle ↦ (
      true,
      _,
      kill_required s r (f, g, l, i, d, e, o, u) fresh idle,
      ground arith,
      ground (arith, has-put s.dead r r e),
      ground (arith, idle, has-put s.used r r u),
      (
        ground (arith, h.0, has-put s.dead r j e),
        ground (arith, h.1, has-put s.used r j u, has-put s.live_in r j i),
      ),
    )
  ]
]

abbrev pub mark_with : List (Option ℕ) → ℕ → ℕ → Option ℕ → List (Option ℕ)
mark_with v r node none = set v r (some node)
mark_with v r node (some n) = v

pub mark_first_in :
    (v : List (Option ℕ)) (r node : ℕ)
    → r < length v
    → mark_first v r node ≡ some (mark_with v r node (get_or v r none))
mark_first_in v r node h = rw (get_elem?-eq-get_or v r none h) (go (get_or v r none))
  where
    go :
        (o : Option ℕ)
        → ◌≡◌ {A = Option (List (Option ℕ))}
            (elim o [ none ↦ some (set v r (some node)) | some n ↦ some v ])
            (some (mark_with v r node o))
    go none = refl
    go (some n) = refl

pub use_dead :
    (s : LabelState) (r node : ℕ)
    → r < capacity s.dead
    → has s.dead r ≡ true
    → use_register s r node ≡ some (false, s)
unfolding use_register
use_dead s r node h d = rw (test_in s.dead r h, d) refl

pub use_live :
    (s : LabelState) (r node : ℕ)
    → IsInRange s r
    → has s.dead r ≡ false
    → has s.live_out r ≡ true
    → use_register s r node
      ≡ some (
        true,
        record s {
          first_use = mark_with s.first_use r node (get_or s.first_use r none);
          last_use = set s.last_use r (some node);
          used = put s.used r;
        },
      )
unfolding use_register
use_live s r node (f, g, l, i, d, e, o, u) nd lv =
    rw
      (
        test_in s.dead r e,
        nd,
        set_bit_in s.used r u,
        test_in s.live_out r o,
        lv,
        mark_first_in s.first_use r node g,
        get_elem?-eq-get_or s.last_use r none l,
      )
      refl

pub use_required :
    (s : LabelState) (r node : ℕ)
    → IsInRange s r
    → has s.dead r ≡ false
    → has s.live_out r ≡ false
    → use_register s r node
      ≡ some (
        true,
        record s {
          first_use = mark_with s.first_use r node (get_or s.first_use r none);
          last_use = set s.last_use r (some node);
          live_in = put s.live_in r;
          live_out = put s.live_out r;
          used = put s.used r;
        },
      )
unfolding use_register
use_required s r node (f, g, l, i, d, e, o, u) nd lv =
    rw
      (
        test_in s.dead r e,
        nd,
        set_bit_in s.used r u,
        test_in s.live_out r o,
        lv,
        set_bit_in s.live_out r o,
        set_bit_in s.live_in r i,
        mark_first_in s.first_use r node g,
        get_elem?-eq-get_or s.last_use r none l,
      )
      refl

-- At a register in range `use` does not throw. It refuses exactly a dead register, and the register is
-- live and used behind it unless it refuses. It makes no register live and dead at once, and none live
-- on entry that is not used.
pub use_register-IsApart :
    (s : LabelState) (r node i : ℕ)
    → IsInRange s r
    → IsApart s i
    → (ok : Bool) × (s' : LabelState) × (use_register s r node ≡ some (ok, s'))
      × (ok ≡ not (has s.dead r))
      × ((ok && not (has s'.live_out r && has s'.used r)) ≡ false)
      × IsApart s' i
use_register-IsApart s r node j (f, g, l, i, d, e, o, u) h = elim (Bool-cases (has s.dead r)) [
  | inl dead ↦ (false, s, use_dead s r node e dead, ground arith, refl, h)
  | inr fresh ↦ elim (Bool-cases (has s.live_out r)) [
    | inl live ↦ (
      true,
      _,
      use_live s r node (f, g, l, i, d, e, o, u) fresh live,
      ground arith,
      ground (arith, live, has-put s.used r r u),
      (h.0, ground (arith, h.1, has-put s.used r j u)),
    )
    | inr idle ↦ (
      true,
      _,
      use_required s r node (f, g, l, i, d, e, o, u) fresh idle,
      ground arith,
      ground (arith, has-put s.live_out r r o, has-put s.used r r u),
      (
        ground (arith, h.0, has-put s.live_out r j o, same_register s r j fresh),
        ground (arith, h.1, has-put s.used r j u, has-put s.live_in r j i),
      ),
    )
  ]
]
