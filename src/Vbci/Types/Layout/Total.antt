-- ===== src/Vbci/Types/Layout/Total.antt =====
-- Every type id of a well-formed table has a layout.
use verona_bc.Prelude.{
  ℕ, zero, suc, ◌+◌, ◌-◌, ◌≤◌, ◌<◌, ◌≡◌, ◌⊎◌, inl, inr, Bool, true, false, Option, some, List, [],
  ◌∷◌, ◌==◌, ltb, if◌then◌else◌, get_elem?, length, refl, ◌∙◌, arith, Bool-cases, All,
}
use verona_bc.Vbci.Types.{
  TypeTag, array, cown, ref, union, tuple, ComplexType, Program, dynamic_type_id,
}
use verona_bc.Vbci.Types.Step.{IsTypeId, IsRanked, All-map}
use verona_bc.Vbci.Types.Entry.{Entry-cases}
use verona_bc.Vbci.Types.Exact.{Entry-children}
use verona_bc.Vbci.Types.Layout.{
  object_type, ffi_pointer, Rep, same_rep, dynamic_rep, num_primitive_classes, primitive_rep,
  all_same, layout_union_type, layout_complex_type, layout_type_id,
}
use verona_bc.Vbci.Types.Layout.Union.{layout_complex}

all_same_total :
    (f : ℕ → Option Rep) (rep : Rep) (cs : List ℕ)
    → All (λ c. (r : Rep) × (f c ≡ some r)) cs
    → (b : Bool) × (all_same f rep cs ≡ some b)
unfolding all_same
all_same_total f rep [] h = (true, refl)
all_same_total f rep (c ∷ cs) h =
    let (r, e) = h.0 in
    let (b, rest) = all_same_total f rep cs h.1 in
    elim (Bool-cases (same_rep rep r)) [
      | inl same ↦ (b, rw (e, same) rest)
      | inr other ↦ (false, rw (e, other) refl)
    ]

-- A union has a member.
abbrev pub IsInhabited : TypeTag → List ℕ → Type 0
IsInhabited union [] = ⊥
IsInhabited tag cs = Unit {0}

layout_complex_total :
    (f : ℕ → Option Rep) (tag : TypeTag) (cs : List ℕ)
    → IsInhabited tag cs
    → All (λ c. (r : Rep) × (f c ≡ some r)) cs
    → (r : Rep) × (layout_complex_type f tag cs ≡ some r)
unfolding layout_complex_type layout_union_type
layout_complex_total f array cs i h = (_, refl)
layout_complex_total f cown cs i h = (_, refl)
layout_complex_total f ref cs i h = (_, refl)
layout_complex_total f tuple cs i h = (_, refl)
layout_complex_total f union [] i h = absurd i
layout_complex_total f union (c ∷ cs) i h =
    let (rep, e) = h.0 in
    let (ok, m) = all_same_total f rep cs h.1 in ((if ok then rep else dynamic_rep), rw (e, m) refl)

module _ (p : Program) (rank : ℕ → ℕ) (word4 : Bool) (w : IsRanked p rank) where
  layout_low :
      (n a : ℕ)
      → (a ≡ dynamic_type_id) ⊎ (a < p.min_complex_type_id)
      → (r : Rep) × (layout_type_id (suc n) word4 p a ≡ some r)
  unfolding layout_type_id
  layout_low n a (inl e) =
      let top : (a == dynamic_type_id) ≡ true = ground arith in (dynamic_rep, rw top refl)
  layout_low n a (inr l) = elim (Bool-cases (a == dynamic_type_id)) [
    | inl top ↦ (dynamic_rep, rw top refl)
    | inr nd ↦ elim (Bool-cases (ltb a num_primitive_classes)) [
      | inl prim ↦ (primitive_rep word4 a, rw (nd, prim) refl)
      | inr np ↦
          let cls : ltb a p.min_complex_type_id ≡ true = ground arith in
          ((object_type, ffi_pointer), rw (nd, np, cls) refl)
    ]
  ]

  bounded :
      (a : ℕ)
      → IsTypeId p a
      → (a ≡ dynamic_type_id)
        ⊎ ((a < dynamic_type_id) × (a < p.min_complex_type_id + length p.complex_types))
  bounded a (inl e) = inl e
  bounded a (inr l) = inr (omega (arith, w.fits), l)

  layout_below :
      (n a : ℕ)
      → num_primitive_classes ≤ p.min_complex_type_id
      → ((i : ℕ) (t : ComplexType)
          → get_elem? p.complex_types i ≡ some t
          → IsInhabited t.tag t.children)
      → IsTypeId p a
      → rank a < n
      → (r : Rep) × (layout_type_id n word4 p a ≡ some r)
  layout_below zero a m inh ia h = absurd (omega arith)
  layout_below (suc n) a m inh ia h = elim (bounded a ia) [
    | inl top ↦ layout_low n a (inl top)
    | inr (below, l) ↦ elim (Entry-cases p a ia (λ e. omega arith)) [
      | inl low ↦ layout_low n a (inr low)
      | inr (t, k) ↦
          let kids = Entry-children p rank w a t k in
          let (r, e) =
            layout_complex_total (layout_type_id n word4 p) t.tag t.children
              (inh (a - p.min_complex_type_id) t k.1)
              (All-map (λ c x. layout_below n c m inh x.0 (omega (arith, x.1))) t.children kids) in
          (r, layout_complex n a word4 p t m below k l ∙ e)
    ]
  ]

-- On a table whose complex types have children of smaller rank and whose unions have members, with fuel
-- above the rank, every type id of the table has a layout: the search ends, and no call throws.
pub layout_type_id-IsTotal :
    (p : Program) (rank : ℕ → ℕ) (word4 : Bool) (n a : ℕ)
    → IsRanked p rank
    → num_primitive_classes ≤ p.min_complex_type_id
    → ((i : ℕ) (t : ComplexType)
        → get_elem? p.complex_types i ≡ some t
        → IsInhabited t.tag t.children)
    → IsTypeId p a
    → rank a < n
    → (r : Rep) × (layout_type_id n word4 p a ≡ some r)
layout_type_id-IsTotal p rank word4 n a w m inh ia h = layout_below p rank word4 w n a m inh ia h
