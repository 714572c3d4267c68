-- ===== src/Vbci/Types/Entry.antt =====
-- Type ids and their entries, and the views of those that are no unions.
use native.Mathlib.Decide.{dec_lt}
use verona_bc.Prelude.{
  ℕ, ◌-◌, ◌≤◌, ◌<◌, ◌≡◌, ◌≢◌, ◌⊎◌, inl, inr, Bool, true, false, some, List, [], ◌∷◌, get_elem?,
  get_elem?-eq-get_or, refl, arith,
}
use verona_bc.Vbci.Types.{
  TypeTag, array, cown, ref, union, tuple, same_tag, ComplexType, Program, dynamic_type_id,
}
use verona_bc.Vbci.Types.Step.{View, leaf, one_of, product, box, view_of, IsTypeId, body, view, any}

-- The entry of a type id that is complex.
abbrev pub Entry : Program → ℕ → ComplexType → Type 0
Entry p a t =
    (p.min_complex_type_id ≤ a) × (get_elem? p.complex_types (a - p.min_complex_type_id) ≡ some t)

pub Entry-cases :
    (p : Program) (a : ℕ)
    → IsTypeId p a
    → a ≢ dynamic_type_id
    → (a < p.min_complex_type_id) ⊎ ((t : ComplexType) × Entry p a t)
Entry-cases p a (inl e) n = absurd (n e)
Entry-cases p a (inr h) n = elim (dec_lt a p.min_complex_type_id) [
  | yes low ↦ inl low
  | no high ↦ inr (
    _,
    (
      omega arith,
      get_elem?-eq-get_or p.complex_types (a - p.min_complex_type_id)
          (record { tag = union; children = [] }) (omega arith),
    ),
  )
]

pub view_low : (p : Program) (a : ℕ) → a < p.min_complex_type_id → view p a ≡ leaf
view_low p a h = ground arith

pub view_high :
    (p : Program) (a : ℕ) (t : ComplexType) → Entry p a t → view p a ≡ view_of t.tag t.children
view_high p a t h = rw h.1 (ground arith)

abbrev pub IsNoUnion : View → Type 0
IsNoUnion (one_of cs) = ⊥
IsNoUnion v = Unit {0}

pub body_into :
    (g : ℕ → ℕ → Bool) (a b : ℕ) (v : View) (ds : List ℕ)
    → IsNoUnion v
    → any (λ d. g a d) ds ≡ body g a b v (one_of ds)
body_into g a b leaf ds n = refl
body_into g a b (one_of cs) ds n = absurd n
body_into g a b (product cs) ds n = refl
body_into g a b (box t x) ds n = refl

pub view_of-IsNoUnion :
    (tag : TypeTag) (cs : List ℕ) → same_tag tag union ≡ false → IsNoUnion (view_of tag cs)
view_of-IsNoUnion union cs n = cc
view_of-IsNoUnion tuple cs n = tt
view_of-IsNoUnion array [] n = tt
view_of-IsNoUnion array (c ∷ cs) n = tt
view_of-IsNoUnion cown [] n = tt
view_of-IsNoUnion cown (c ∷ cs) n = tt
view_of-IsNoUnion ref [] n = tt
view_of-IsNoUnion ref (c ∷ cs) n = tt

pub body_low : (g : ℕ → ℕ → Bool) (a b : ℕ) (v : View) → IsNoUnion v → body g a b v leaf ≡ false
body_low g a b leaf n = refl
body_low g a b (one_of cs) n = absurd n
body_low g a b (product cs) n = refl
body_low g a b (box t x) n = refl

pub body_from_low :
    (g : ℕ → ℕ → Bool) (a b : ℕ) (v : View) → IsNoUnion v → body g a b leaf v ≡ false
body_from_low g a b leaf n = refl
body_from_low g a b (one_of cs) n = absurd n
body_from_low g a b (product cs) n = refl
body_from_low g a b (box t x) n = refl

pub same_tag-union : (tag : TypeTag) → same_tag tag union ≡ true → tag ≡ union
same_tag-union union h = refl
same_tag-union array h = cc
same_tag-union cown h = cc
same_tag-union ref h = cc
same_tag-union tuple h = cc
