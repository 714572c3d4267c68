-- ===== src/Label/Effect.antt =====
-- What an accepted `use`, `kill` or `def` does to the sets of a label, at every register.
use verona_bc.Prelude.{
  ℕ, ◌<◌, ◌≡◌, Bool, true, false, not, ◌&&◌, ◌||◌, Option, none, some, List, ◌==◌, if◌then◌else◌,
  arith, refl, inl, inr, length, length-set, set, Bool-cases, get_or, ◌⊎◌, ap, sym, ◌∙◌,
}
use verona_bc.Bitset.{Bitset}
use verona_bc.Bitset.Laws.{has, put, clear, has-put, has-clear, capacity-put, capacity-clear}
use verona_bc.Label.{LabelState, Tree, defined, rejected, DefError, kill, use_register, def}
use verona_bc.Label.Apart.{
  IsInRange, mark_with, kill_dead, kill_live, kill_required, use_dead, use_live, use_required,
}
use verona_bc.Label.Define.{noted, def_idle, def_again, def_refused}

-- An access of register `x`, which may read it, kill it or define it.
pub record Effect (n x : ℕ) (reads kills defines : Bool) (s t : LabelState) : Type 0 where
  pub range : (i : ℕ) → i < n → IsInRange t i
  pub in_has :
      (r : ℕ)
      → r < n
      → has t.live_in r ≡ (has s.live_in r || (x == r && (reads && not (has s.live_out r))))
  pub out_has :
      (r : ℕ) → r < n → has t.live_out r ≡ (if x == r then not kills else has s.live_out r)
  pub dead_has : (r : ℕ) → r < n → has t.dead r ≡ (if x == r then kills else has s.dead r)
  pub defd_has : (r : ℕ) → r < n → has t.defd r ≡ (has s.defd r || (x == r && defines))

-- No register is live and dead.
abbrev pub IsParted : ℕ → LabelState → Type 0
IsParted n s = (r : ℕ) → r < n → (has s.live_out r && has s.dead r) ≡ false

pub Effect-IsParted :
    (n x : ℕ) (reads kills defines : Bool) (s t : LabelState)
    → Effect n x reads kills defines s t
    → IsParted n s
    → IsParted n t
Effect-IsParted n x reads kills defines s t e h r k =
    ground (arith, h r k, e.out_has r k, e.dead_has r k)

length-mark_with :
    (v : List (Option ℕ)) (r node : ℕ) (o : Option ℕ) → length (mark_with v r node o) ≡ length v
length-mark_with v r node none = length-set v r (some node)
length-mark_with v r node (some n) = refl

module _ (n : ℕ) (s : LabelState) (x : ℕ) (within : (i : ℕ) → i < n → IsInRange s i) (h : x < n)
    (parted : IsParted n s) where
  kill_live_effect :
      has s.dead x ≡ false
      → has s.live_out x ≡ true
      → Effect n x true true false s (record s {
        last_use = set s.last_use x none;
        dead = put s.dead x;
        live_out = clear s.live_out x;
        used = put s.used x;
      })
  kill_live_effect nd lv =
      let (f, g, l, i, d, e, o, u) = within x h in
      record {
        range = λ j k. omega (
          arith,
          within j k,
          length-set s.last_use x none,
          capacity-put s.dead x,
          capacity-clear s.live_out x,
          capacity-put s.used x,
        );
        in_has = λ r k. ground arith;
        out_has = λ r k. ground (arith, has-clear s.live_out x r o);
        dead_has = λ r k. ground (arith, has-put s.dead x r e);
        defd_has = λ r k. ground arith;
      }

  kill_required_effect :
      has s.dead x ≡ false
      → has s.live_out x ≡ false
      → Effect n x true true false s (record s {
        last_use = set s.last_use x none;
        live_in = put s.live_in x;
        dead = put s.dead x;
        used = put s.used x;
      })
  kill_required_effect nd lv =
      let (f, g, l, i, d, e, o, u) = within x h in
      record {
        range = λ j k. omega (
          arith,
          within j k,
          length-set s.last_use x none,
          capacity-put s.dead x,
          capacity-put s.live_in x,
          capacity-put s.used x,
        );
        in_has = λ r k. ground (arith, has-put s.live_in x r i);
        out_has = λ r k. elim (Bool-cases (x == r)) [
          | inl here ↦
              let same : x ≡ r = ground arith in
              rw here (ap (λ y. has s.live_out y) (sym same) ∙ lv)
          | inr there ↦ ground arith
        ];
        dead_has = λ r k. ground (arith, has-put s.dead x r e);
        defd_has = λ r k. ground arith;
      }

  -- A register that is read is dead, and then refused, or it is killed.
  pub kill_effect :
      ((t : LabelState) × (kill s x ≡ some (true, t))
        × (has s.dead x ≡ false)
        × Effect n x true true false s t)
      ⊎ ((kill s x ≡ some (false, s)) × (has s.dead x ≡ true))
  kill_effect =
      let (f, g, l, i, d, e, o, u) = within x h in
      elim (Bool-cases (has s.dead x)) [
        | inl dead ↦ inr (kill_dead s x e dead, dead)
        | inr nd ↦ elim (Bool-cases (has s.live_out x)) [
          | inl lv ↦ inl (_, kill_live s x (within x h) nd lv, nd, kill_live_effect nd lv)
          | inr lv ↦ inl (_, kill_required s x (within x h) nd lv, nd, kill_required_effect nd lv)
        ]
      ]

  use_live_effect :
      (node : ℕ)
      → has s.dead x ≡ false
      → has s.live_out x ≡ true
      → Effect n x true false false s (record s {
        first_use = mark_with s.first_use x node (get_or s.first_use x none);
        last_use = set s.last_use x (some node);
        used = put s.used x;
      })
  use_live_effect node nd lv = record {
    range = λ j k. omega (
      arith,
      within j k,
      length-mark_with s.first_use x node (get_or s.first_use x none),
      length-set s.last_use x (some node),
      capacity-put s.used x,
    );
    in_has = λ r k. at_same r lv;
    out_has = λ r k. stays s.live_out true r lv;
    dead_has = λ r k. stays s.dead false r nd;
    defd_has = λ r k. ground arith;
  }
    where
      stays :
          (b : Bitset) (v : Bool) (r : ℕ) → has b x ≡ v → has b r ≡ (if x == r then v else has b r)
      stays b v r e = elim (Bool-cases (x == r)) [
        | inl here ↦ let same : x ≡ r = ground arith in rw here (ap (λ y. has b y) (sym same) ∙ e)
        | inr there ↦ rw there refl
      ]

      at_same :
          (r : ℕ)
          → has s.live_out x ≡ true
          → has s.live_in r ≡ (has s.live_in r || (x == r && (true && not (has s.live_out r))))
      at_same r e = elim (Bool-cases (x == r)) [
        | inl here ↦
            let same : x ≡ r = ground arith in
            let live : has s.live_out r ≡ true = ap (λ y. has s.live_out y) (sym same) ∙ e in
            ground arith
        | inr there ↦ ground arith
      ]

  use_required_effect :
      (node : ℕ)
      → has s.dead x ≡ false
      → has s.live_out x ≡ false
      → Effect n x true false false s (record s {
        first_use = mark_with s.first_use x node (get_or s.first_use x none);
        last_use = set s.last_use x (some node);
        live_in = put s.live_in x;
        live_out = put s.live_out x;
        used = put s.used x;
      })
  use_required_effect node nd lv =
      let (f, g, l, i, d, e, o, u) = within x h in
      record {
        range = λ j k. omega (
          arith,
          within j k,
          length-mark_with s.first_use x node (get_or s.first_use x none),
          length-set s.last_use x (some node),
          capacity-put s.used x,
          capacity-put s.live_in x,
          capacity-put s.live_out x,
        );
        in_has = λ r k. ground (arith, has-put s.live_in x r i);
        out_has = λ r k. ground (arith, has-put s.live_out x r o);
        dead_has = λ r k. ground arith;
        defd_has = λ r k. ground arith;
      }

  pub use_effect :
      (node : ℕ)
      → ((t : LabelState) × (use_register s x node ≡ some (true, t))
          × (has s.dead x ≡ false)
          × Effect n x true false false s t)
        ⊎ ((use_register s x node ≡ some (false, s)) × (has s.dead x ≡ true))
  use_effect node =
      let (f, g, l, i, d, e, o, u) = within x h in
      elim (Bool-cases (has s.dead x)) [
        | inl dead ↦ inr (use_dead s x node e dead, dead)
        | inr nd ↦ elim (Bool-cases (has s.live_out x)) [
          | inl lv ↦ inl (_, use_live s x node (within x h) nd lv, nd, use_live_effect node nd lv)
          | inr lv ↦
              inl (_, use_required s x node (within x h) nd lv, nd, use_required_effect node nd lv)
        ]
      ]

  def_idle_effect :
      (node : ℕ)
      → has s.live_out x ≡ false
      → Effect n x false false true s (
          noted
            (record s { defd = put s.defd x; live_out = put s.live_out x; dead = clear s.dead x })
            x
            node)
  def_idle_effect node lv =
      let (f, g, l, i, d, e, o, u) = within x h in
      record {
        range = λ j k. omega (
          arith,
          within j k,
          length-mark_with s.first_use x node (get_or s.first_use x none),
          length-mark_with s.first_def x node (get_or s.first_def x none),
          length-set s.last_use x none,
          capacity-put s.defd x,
          capacity-clear s.dead x,
          capacity-put s.live_out x,
        );
        in_has = λ r k. ground arith;
        out_has = λ r k. ground (arith, has-put s.live_out x r o);
        dead_has = λ r k. ground (arith, has-clear s.dead x r e);
        defd_has = λ r k. ground (arith, has-put s.defd x r d);
      }

  def_again_effect :
      (node : ℕ) (lu : List (Option ℕ))
      → length lu ≡ length s.last_use
      → has s.live_out x ≡ true
      → Effect n x false false true s
          (noted (record s { defd = put s.defd x; last_use = lu }) x node)
  def_again_effect node lu same lv =
      let (f, g, l, i, d, e, o, u) = within x h in
      let nd : has s.dead x ≡ false = ground (arith, parted x h) in
      record {
        range = λ j k. omega (
          arith,
          within j k,
          length-mark_with s.first_use x node (get_or s.first_use x none),
          length-mark_with s.first_def x node (get_or s.first_def x none),
          length-set lu x none,
          capacity-put s.defd x,
        );
        in_has = λ r k. ground arith;
        out_has = λ r k. ground arith;
        dead_has = λ r k. ground arith;
        defd_has = λ r k. ground (arith, has-put s.defd x r d);
      }

  -- A definition is accepted, or leaves a state in range.
  pub def_effect :
      (tree : Tree) (node : ℕ) (var : Bool)
      → ((t : LabelState) × (tree' : Tree) × (def s tree x node var ≡ some (defined t tree'))
          × Effect n x false false true s t)
        ⊎ (e : DefError) × (t : LabelState) × (def s tree x node var ≡ some (rejected e t))
          × ((i : ℕ) → i < n → IsInRange t i)
          × IsParted n t
  def_effect tree node true = elim (Bool-cases (has s.live_out x)) [
    | inl lv ↦
        let (lu, tree', e, same) = def_again s tree x node (within x h) lv in
        inl (_, tree', e, def_again_effect node lu same lv)
    | inr lv ↦
        inl (_, tree, def_idle s tree x node true (within x h) refl lv, def_idle_effect node lv)
  ]
  def_effect tree node false =
      elim (Bool-cases (has s.defd x || (has s.live_in x || has s.live_out x))) [
        | inr may ↦ inl (
          _,
          tree,
          def_idle s tree x node false (within x h) (ground arith) (ground arith),
          def_idle_effect node (ground arith),
        )
        | inl bad ↦
            let (e, t, run, left) = def_refused s tree x node (within x h) bad in
            elim left [
              | inl same ↦ inr (e, t, run, rw same within, rw same parted)
              | inr more ↦ inr (
                e,
                t,
                run,
                rw more (λ j k. omega (arith, within j k, capacity-put s.defd x)),
                rw more parted,
              )
            ]
      ]
