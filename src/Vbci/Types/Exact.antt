-- ===== src/Vbci/Types/Exact.antt =====
-- `subtype` answers on every pair of a well-formed table's type ids, and the answer depends on no fuel.
use verona_bc.Prelude.{
  ℕ, zero, suc, ◌+◌, ◌-◌, ◌≤◌, ◌<◌, ◌≡◌, ◌≢◌, inl, inr, Bool, false, Option, some, ◌==◌, refl, sym,
  ◌∙◌, ap, arith, All, Bool-cases,
}
use mathlib.Core.Option
use verona_bc.Vbci.Types.{
  union, same_tag, ComplexType, Program, dynamic_type_id, is_union, subtype_distinct, subtype,
}
use verona_bc.Vbci.Types.Step.{
  view_of, IsTypeId, IsRanked, body, step, view, all_of-all, any_of-any, All-map, is_union_low,
  is_union_high, complex_type_high, complex_body, is_complex_low, is_complex_high,
}
use verona_bc.Vbci.Types.Entry.{
  Entry, Entry-cases, view_low, view_high, IsNoUnion, body_into, view_of-IsNoUnion, body_low,
  body_from_low, same_tag-union,
}

module _ (p : Program) (rank : ℕ → ℕ) (w : IsRanked p rank) where
  abbrev pub IsBelow : ℕ → ℕ → Type 0
  IsBelow n c = IsTypeId p c × (rank c < n)

  pub Entry-children : (a : ℕ) (t : ComplexType) → Entry p a t → All (IsBelow (rank a)) t.children
  Entry-children a t h =
      let e : p.min_complex_type_id + (a - p.min_complex_type_id) ≡ a = omega arith in
      rw e at (w.children (a - p.min_complex_type_id) t h.1)

  -- `f` answers `g` wherever the ranks sum up to less than `n`.
  abbrev pub AnswersBelow : (ℕ → ℕ → Option Bool) → (ℕ → ℕ → Bool) → ℕ → Type 0
  AnswersBelow f g n =
      (x y : ℕ) → IsTypeId p x → IsTypeId p y → rank x + rank y < n → f x y ≡ some (g x y)

  module _ (f : ℕ → ℕ → Option Bool) (g : ℕ → ℕ → Bool) where
    distinct_union :
        (a b : ℕ) (t : ComplexType)
        → Entry p a t
        → t.tag ≡ union
        → IsTypeId p b
        → AnswersBelow f g (rank a + rank b)
        → subtype_distinct f p a b ≡ some (body g a b (view p a) (view p b))
    unfolding subtype_distinct
    distinct_union a b t h u ib known =
        let sub =
          All-map (λ c x. known c b x.0 ib (omega (arith, x.1))) t.children
            (Entry-children a t h) in
        rw (is_union_high p a t h.0 h.1, complex_type_high p a t h.0 h.1, view_high p a t h, u)
          (all_of-all (λ c. f c b) (λ c. g c b) t.children sub)

    distinct_into_union :
        (a b : ℕ) (t : ComplexType)
        → is_union p a ≡ some false
        → IsNoUnion (view p a)
        → Entry p b t
        → t.tag ≡ union
        → IsTypeId p a
        → AnswersBelow f g (rank a + rank b)
        → subtype_distinct f p a b ≡ some (body g a b (view p a) (view p b))
    unfolding subtype_distinct
    distinct_into_union a b t na va h u ia known =
        let sup =
          All-map (λ c x. known a c ia x.0 (omega (arith, x.1))) t.children
            (Entry-children b t h) in
        rw (na, is_union_high p b t h.0 h.1, complex_type_high p b t h.0 h.1, view_high p b t h, u)
          (any_of-any (λ c. f a c) (λ c. g a c) t.children sup
            ∙ ap some (body_into g a b (view p a) t.children va))

    distinct_low :
        (a b : ℕ)
        → a < p.min_complex_type_id
        → IsTypeId p a
        → IsTypeId p b
        → b ≢ dynamic_type_id
        → AnswersBelow f g (rank a + rank b)
        → subtype_distinct f p a b ≡ some (body g a b (view p a) (view p b))
    unfolding subtype_distinct
    distinct_low a b la ia ib nb known = elim (Entry-cases p b ib nb) [
      | inl lb ↦
          rw
            (
              is_union_low p a la,
              is_union_low p b lb,
              is_complex_low p a la,
              view_low p a la,
              view_low p b lb,
            )
            refl
      | inr (t, h) ↦ elim (Bool-cases (same_tag t.tag union)) [
        | inl u ↦
            distinct_into_union a b t (is_union_low p a la) (rw (view_low p a la) tt) h
              (same_tag-union t.tag u) ia known
        | inr n ↦
            rw
              (
                is_union_low p a la,
                is_union_high p b t h.0 h.1,
                n,
                is_complex_low p a la,
                view_low p a la,
                view_high p b t h,
              )
              (ap some (
                sym (
                  body_from_low g a b (view_of t.tag t.children)
                    (view_of-IsNoUnion t.tag t.children n))))
      ]
    ]

    distinct_high :
        (a b : ℕ) (s : ComplexType)
        → Entry p a s
        → same_tag s.tag union ≡ false
        → IsTypeId p a
        → IsTypeId p b
        → b ≢ dynamic_type_id
        → AnswersBelow f g (rank a + rank b)
        → subtype_distinct f p a b ≡ some (body g a b (view p a) (view p b))
    unfolding subtype_distinct
    distinct_high a b s k m ia ib nb known = elim (Entry-cases p b ib nb) [
      | inl lb ↦
          rw
            (
              is_union_high p a s k.0 k.1,
              m,
              is_union_low p b lb,
              is_complex_high p a k.0,
              is_complex_low p b lb,
              view_high p a s k,
              view_low p b lb,
            )
            (ap some (
              sym
                (body_low g a b (view_of s.tag s.children) (view_of-IsNoUnion s.tag s.children m))))
      | inr (t, h) ↦ elim (Bool-cases (same_tag t.tag union)) [
        | inl u ↦
            distinct_into_union a b t (is_union_high p a s k.0 k.1 ∙ ap some m)
              (rw (view_high p a s k) (view_of-IsNoUnion s.tag s.children m)) h
              (same_tag-union t.tag u) ia known
        | inr n ↦
            rw
              (
                is_union_high p a s k.0 k.1,
                m,
                is_union_high p b t h.0 h.1,
                n,
                is_complex_high p a k.0,
                is_complex_high p b h.0,
                complex_type_high p a s k.0 k.1,
                complex_type_high p b t h.0 h.1,
                view_high p a s k,
                view_high p b t h,
              )
              (complex_body f g (IsBelow (rank a)) (IsBelow (rank b)) a b s.tag s.children t.tag
                t.children m n (w.arity (a - p.min_complex_type_id) s k.1)
                (w.arity (b - p.min_complex_type_id) t h.1)
                (λ c d x y. (
                  known c d x.0 y.0 (omega (arith, x.1, y.1)),
                  known d c y.0 x.0 (omega (arith, x.1, y.1)),
                ))
                (Entry-children a s k) (Entry-children b t h))
      ]
    ]

    distinct_body :
        (a b : ℕ)
        → IsTypeId p a
        → IsTypeId p b
        → a ≢ dynamic_type_id
        → b ≢ dynamic_type_id
        → AnswersBelow f g (rank a + rank b)
        → subtype_distinct f p a b ≡ some (body g a b (view p a) (view p b))
    distinct_body a b ia ib na nb known = elim (Entry-cases p a ia na) [
      | inl la ↦ distinct_low a b la ia ib nb known
      | inr (s, k) ↦ elim (Bool-cases (same_tag s.tag union)) [
        | inl u ↦ distinct_union a b s k (same_tag-union s.tag u) ib known
        | inr m ↦ distinct_high a b s k m ia ib nb known
      ]
    ]

  subtype-step :
      (n a b : ℕ) (g : ℕ → ℕ → Bool)
      → IsTypeId p a
      → IsTypeId p b
      → AnswersBelow (subtype n p) g (rank a + rank b)
      → subtype (suc n) p a b ≡ some (step g a b (view p a) (view p b))
  unfolding subtype
  subtype-step n a b g ia ib known = elim (Bool-cases (b == dynamic_type_id)) [
    | inl top ↦ rw top refl
    | inr nb ↦ elim (Bool-cases (a == dynamic_type_id)) [
      | inl bottom ↦ rw (nb, bottom) refl
      | inr na ↦ elim (Bool-cases (a == b)) [
        | inl same ↦ rw (nb, na, same) refl
        | inr other ↦
            rw (nb, na, other)
              (distinct_body (subtype n p) g a b ia ib (ground arith) (ground arith) known)
      ]
    ]
  ]

  -- The answer of `subtype`, with just enough fuel.
  abbrev pub le : ℕ → ℕ → Bool
  le a b = Option.get_or (subtype (suc (rank a + rank b)) p a b) false

  le_below : (k n : ℕ) → n ≤ k → AnswersBelow (subtype n p) le n
  le_below zero n l x y ix iy h = absurd (omega arith)
  le_below (suc k) zero l x y ix iy h = absurd (omega arith)
  le_below (suc k) (suc n) l x y ix iy h =
      let known =
        λ (m : ℕ) (i : m ≤ k) (j : rank x + rank y ≤ m) (x' y' : ℕ) (ix' : IsTypeId p x')
            (iy' : IsTypeId p y') (o : rank x' + rank y' < rank x + rank y).
          le_below k m i x' y' ix' iy' (omega arith) in
      let long = subtype-step n x y le ix iy (known n (omega arith) (omega arith)) in
      let short =
        subtype-step (rank x + rank y) x y le ix iy
          (known (rank x + rank y) (omega arith) (omega arith)) in
      long ∙ ap some (ap (λ o. Option.get_or o false) (sym short))

  -- With fuel above the sum of the ranks, `subtype` does not throw, and answers the same whatever the fuel.
  pub subtype-le :
      (n a b : ℕ)
      → IsTypeId p a
      → IsTypeId p b
      → rank a + rank b < n
      → subtype n p a b ≡ some (le a b)
  subtype-le n a b ia ib h = le_below n n (omega arith) a b ia ib h

  -- The answer is one step of the answers on the children.
  pub le-step : (a b : ℕ) → IsTypeId p a → IsTypeId p b → le a b ≡ step le a b (view p a) (view p b)
  le-step a b ia ib =
      let known =
        λ (x y : ℕ) (ix : IsTypeId p x) (iy : IsTypeId p y) (h : rank x + rank y < rank a + rank b).
          subtype-le (rank a + rank b) x y ix iy h in
      ap (λ o. Option.get_or o false) (subtype-step (rank a + rank b) a b le ia ib known)
