-- ===== src/Vbci/Types/Layout/Union.antt =====
-- What the layout of a union says of its members.
use verona_bc.Prelude.{
  ℕ, zero, suc, ◌+◌, ◌≤◌, ◌<◌, ◌≡◌, ◌⊎◌, inl, inr, Bool, true, false, Option, none, some, List, [],
  ◌∷◌, ◌==◌, ltb, get_elem?, length, refl, sym, ap, ◌∙◌, arith, Bool-cases, Option-cases,
}
use verona_bc.Vbci.Types.{union, ComplexType, Program, dynamic_type_id}
use verona_bc.Vbci.Types.Entry.{Entry}
use verona_bc.Vbci.Types.Layout.{
  Rep, same_rep, dynamic_rep, num_primitive_classes, all_same, layout_union_type,
  layout_complex_type, layout_type_id,
}
use verona_bc.Vbci.Types.Layout.Same.{same_rep-eq}

all_same_first :
    (f : ℕ → Option Rep) (rep : Rep) (d : ℕ) (cs : List ℕ)
    → all_same f rep (d ∷ cs) ≡ some true
    → (f d ≡ some rep) × (all_same f rep cs ≡ some true)
unfolding all_same
all_same_first f rep d cs h = elim (Option-cases (f d)) [
  | inl n ↦ let h' : ◌≡◌ {A = Option Bool} none (some true) = rw n at h in cc
  | inr (r, n) ↦ elim (Bool-cases (same_rep rep r)) [
    | inr other ↦ let h' : ◌≡◌ {A = Option Bool} (some false) (some true) = rw (n, other) at h in cc
    | inl same ↦ (n ∙ ap some (sym (same_rep-eq rep r same)), rw (n, same) at h)
  ]
]

-- Where the loop ends with `ok`, every further child has the first one's layout.
all_same-true :
    (f : ℕ → Option Rep) (rep : Rep) (cs : List ℕ) (i c : ℕ)
    → all_same f rep cs ≡ some true
    → get_elem? cs i ≡ some c
    → f c ≡ some rep
all_same-true f rep [] i c h e = cc
all_same-true f rep (d ∷ cs) zero c h e =
    let e' : d ≡ c = cc in rw (← e') (all_same_first f rep d cs h).0
all_same-true f rep (d ∷ cs) (suc i) c h e =
    all_same-true f rep cs i c (all_same_first f rep d cs h).1 e

union_rep :
    (f : ℕ → Option Rep) (cs : List ℕ) (r : Rep) (i c : ℕ)
    → layout_union_type f cs ≡ some r
    → get_elem? cs i ≡ some c
    → (f c ≡ some r) ⊎ (r ≡ dynamic_rep)
unfolding layout_union_type
union_rep f [] r i c h e = cc
union_rep f (d ∷ cs) r i c h e = elim (Option-cases (f d)) [
  | inl n ↦ let h' : ◌≡◌ {A = Option Rep} none (some r) = rw n at h in cc
  | inr (rep, n) ↦ elim (Option-cases (all_same f rep cs)) [
    | inl m ↦ let h' : ◌≡◌ {A = Option Rep} none (some r) = rw (n, m) at h in cc
    | inr (false, m) ↦
        inr (let h' : ◌≡◌ {A = Option Rep} (some dynamic_rep) (some r) = rw (n, m) at h in cc)
    | inr (true, m) ↦
        let h' : ◌≡◌ {A = Option Rep} (some rep) (some r) = rw (n, m) at h in
        let same : rep ≡ r = cc in inl (rw (← same) (member i c e rep n m))
  ]
]
  where
    member :
        (i c : ℕ)
        → get_elem? (d ∷ cs) i ≡ some c
        → (rep : Rep) → f d ≡ some rep
        → all_same f rep cs ≡ some true
        → f c ≡ some rep
    member zero c e rep n m = let e' : d ≡ c = cc in rw (← e') n
    member (suc i) c e rep n m = all_same-true f rep cs i c m e

pub layout_complex :
    (n a : ℕ) (word4 : Bool) (p : Program) (t : ComplexType)
    → num_primitive_classes ≤ p.min_complex_type_id
    → a < dynamic_type_id
    → Entry p a t
    → a < p.min_complex_type_id + length p.complex_types
    → layout_type_id (suc n) word4 p a
      ≡ layout_complex_type (layout_type_id n word4 p) t.tag t.children
unfolding layout_type_id
layout_complex n a word4 p t m d h l =
    let not_dynamic : (a == dynamic_type_id) ≡ false = ground arith in
    let not_primitive : ltb a num_primitive_classes ≡ false = ground arith in
    let not_class : ltb a p.min_complex_type_id ≡ false = ground arith in
    let complex : ltb a (p.min_complex_type_id + length p.complex_types) ≡ true = ground arith in
    rw (not_dynamic, not_primitive, not_class, complex, h.1) refl

-- Where the layout of a union is found, every member has the same one, unless the layout is the generic
-- one of `Value`: what is stored by a member's layout is read back by the union's.
pub layout_type_id-union :
    (n a i c : ℕ) (word4 : Bool) (p : Program) (t : ComplexType) (r : Rep)
    → num_primitive_classes ≤ p.min_complex_type_id
    → (a < dynamic_type_id) × (a < p.min_complex_type_id + length p.complex_types)
    → Entry p a t
    → t.tag ≡ union
    → layout_type_id (suc n) word4 p a ≡ some r
    → get_elem? t.children i ≡ some c
    → (layout_type_id n word4 p c ≡ some r) ⊎ (r ≡ dynamic_rep)
unfolding layout_complex_type
layout_type_id-union n a i c word4 p t r m (d, l) h u e k =
    let open_call = sym (layout_complex n a word4 p t m d h l) ∙ e in
    union_rep (layout_type_id n word4 p) t.children r i c (rw u at open_call) k
