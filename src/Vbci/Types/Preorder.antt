-- ===== src/Vbci/Types/Preorder.antt =====
-- The subtypes of a well-formed table form a preorder.
use verona_bc.Prelude.{
  ℕ, zero, suc, ◌+◌, ◌<◌, ◌≡◌, ◌≢◌, inl, inr, Bool, true, false, some, List, [], ◌∷◌, ◌==◌, refl,
  sym, ◌∙◌, ap, arith, All, Bool-cases,
}
use verona_bc.Vbci.Types.{
  TypeTag, array, cown, ref, union, tuple, Program, dynamic_type_id, subtype,
}
use verona_bc.Vbci.Types.Step.{
  View, leaf, one_of, product, box, view_of, IsTypeId, IsRanked, all, any, body, view,
}
use verona_bc.Vbci.Types.Answers.{
  all_map, any_map, any_of_all, zip_all_map, zip_all_into, same_tag_trans,
}
use verona_bc.Vbci.Types.Entry.{Entry-cases, view_low, view_high}
use verona_bc.Vbci.Types.Exact.{IsBelow, Entry-children, le, le-step, subtype-le}

module _ (p : Program) (rank : ℕ → ℕ) (w : IsRanked p rank) where
  -- The children of a view have a rank below `n`.
  abbrev IsViewBelow : ℕ → View → Type 0
  IsViewBelow n leaf = Unit {0}
  IsViewBelow n (one_of cs) = All (IsBelow p rank w n) cs
  IsViewBelow n (product cs) = All (IsBelow p rank w n) cs
  IsViewBelow n (box t x) = IsBelow p rank w n x

  view_of-IsViewBelow :
      (n : ℕ) (tag : TypeTag) (cs : List ℕ)
      → All (IsBelow p rank w n) cs
      → IsViewBelow n (view_of tag cs)
  view_of-IsViewBelow n union cs h = h
  view_of-IsViewBelow n tuple cs h = h
  view_of-IsViewBelow n array [] h = tt
  view_of-IsViewBelow n array (c ∷ cs) h = h.0
  view_of-IsViewBelow n cown [] h = tt
  view_of-IsViewBelow n cown (c ∷ cs) h = h.0
  view_of-IsViewBelow n ref [] h = tt
  view_of-IsViewBelow n ref (c ∷ cs) h = h.0

  view-IsViewBelow : (a : ℕ) → IsTypeId p a → a ≢ dynamic_type_id → IsViewBelow (rank a) (view p a)
  view-IsViewBelow a ia na = elim (Entry-cases p a ia na) [
    | inl low ↦ rw (view_low p a low) tt
    | inr (t, h) ↦
        rw (view_high p a t h)
          (view_of-IsViewBelow (rank a) t.tag t.children (Entry-children p rank w a t h))
  ]

  abbrev IsTransBelow : ℕ → Type 0
  IsTransBelow n =
      (x y z : ℕ)
      → IsTypeId p x
      → IsTypeId p y
      → IsTypeId p z
      → rank x + rank y + rank z < n
      → le p rank w x y ≡ true
      → le p rank w y z ≡ true
      → le p rank w x z ≡ true

  module _ (a b c : ℕ) (ia : IsTypeId p a) (ib : IsTypeId p b) (ic : IsTypeId p c)
      (trans : IsTransBelow (rank a + rank b + rank c)) (ab : le p rank w a b ≡ true)
      (bc : le p rank w b c ≡ true) where
    through_union :
        (ds : List ℕ)
        → All (IsBelow p rank w (rank b)) ds
        → any (λ d. le p rank w a d) ds ≡ true
        → all (λ d. le p rank w d c) ds ≡ true
        → le p rank w a c ≡ true
    through_union ds h e k =
        any_of_all ds (λ d q x y. trans a d c ia q.0 ic (omega (arith, q.1)) x y) h e k

    into_union :
        (es : List ℕ)
        → All (IsBelow p rank w (rank c)) es
        → any (λ d. le p rank w b d) es ≡ true
        → any (λ d. le p rank w a d) es ≡ true
    into_union es h k = any_map es (λ d q x. trans a b d ia ib q.0 (omega (arith, q.1)) ab x) h k

    body_trans :
        (u v t : View)
        → IsViewBelow (rank a) u
        → IsViewBelow (rank b) v
        → IsViewBelow (rank c) t
        → (body (le p rank w) a c u t ≡ true → le p rank w a c ≡ true)
        → body (le p rank w) a b u v ≡ true
        → body (le p rank w) b c v t ≡ true
        → le p rank w a c ≡ true
    body_trans (one_of cs) v t hu hv ht intro e k =
        intro (all_map cs (λ x q o. trans x b c q.0 ib ic (omega (arith, q.1)) o bc) hu e)
    body_trans leaf (one_of ds) t hu hv ht intro e k = through_union ds hv e k
    body_trans (product cs) (one_of ds) t hu hv ht intro e k = through_union ds hv e k
    body_trans (box tag x) (one_of ds) t hu hv ht intro e k = through_union ds hv e k
    body_trans u v (one_of es) hu hv ht intro e k = intro (into_union es ht k)
    body_trans (product cs) (product ds) (product es) hu hv ht intro e k = intro (
        zip_all_map cs ds es (λ x y z i j o. trans x y z i.0 j.0 o.0 (omega (arith, i.1, j.1, o.1)))
          hu hv ht e k)
    body_trans (product cs) (product ds) (box array z) hu hv ht intro e k = intro (
        zip_all_into cs ds (λ x y i j. trans x y z i.0 j.0 ht.0 (omega (arith, i.1, j.1, ht.1))) hu
          hv e k)
    body_trans (product cs) (box array y) (box array z) hu hv ht intro e k =
        let yz : le p rank w y z ≡ true = ground arith in
        intro (
          all_map cs (λ x i o. trans x y z i.0 hv.0 ht.0 (omega (arith, i.1, hv.1, ht.1)) o yz) hu
            e)
    body_trans (box tag x) (box tag' y) (box tag'' z) hu hv ht intro e k =
        let xy : le p rank w x y ≡ true = ground arith in
        let yx : le p rank w y x ≡ true = ground arith in
        let yz : le p rank w y z ≡ true = ground arith in
        let zy : le p rank w z y ≡ true = ground arith in
        let xz = trans x y z hu.0 hv.0 ht.0 (omega (arith, hu.1, hv.1, ht.1)) xy yz in
        let zx = trans z y x ht.0 hv.0 hu.0 (omega (arith, hu.1, hv.1, ht.1)) zy yx in
        intro (ground (arith, same_tag_trans tag tag' tag''))
    body_trans u v t hu hv ht intro e k = ground arith

  -- `le` between two type ids that are neither equal nor dynamic is its body.
  le-body :
      (a b : ℕ)
      → IsTypeId p a
      → IsTypeId p b
      → (a == dynamic_type_id) ≡ false
      → (b == dynamic_type_id) ≡ false
      → (a == b) ≡ false
      → le p rank w a b ≡ body (le p rank w) a b (view p a) (view p b)
  le-body a b ia ib na nb ab = le-step p rank w a b ia ib ∙ (rw (nb, na, ab) refl)

  le_top :
      (a b : ℕ)
      → IsTypeId p a
      → IsTypeId p b
      → (b == dynamic_type_id) ≡ true
      → le p rank w a b ≡ true
  le_top a b ia ib top = le-step p rank w a b ia ib ∙ (rw top refl)

  le_refl : (a b : ℕ) → IsTypeId p a → IsTypeId p b → (a == b) ≡ true → le p rank w a b ≡ true
  le_refl a b ia ib same = le-step p rank w a b ia ib ∙ ground (arith, same)

  le_from_dynamic :
      (a b : ℕ)
      → IsTypeId p a
      → IsTypeId p b
      → (a == dynamic_type_id) ≡ true
      → le p rank w a b ≡ true
      → (b == dynamic_type_id) ≡ true
  le_from_dynamic a b ia ib bottom h = elim (Bool-cases (b == dynamic_type_id)) [
    | inl top ↦ top
    | inr nb ↦
        let answer : le p rank w a b ≡ false =
          le-step p rank w a b ia ib ∙ (rw (nb, bottom) refl) in
        cc
  ]

  le_trans : (n : ℕ) → IsTransBelow n
  le_trans zero a b c ia ib ic h ab bc = absurd (omega arith)
  le_trans (suc n) a b c ia ib ic h ab bc = elim (Bool-cases (c == dynamic_type_id)) [
    | inl top ↦ le_top a c ia ic top
    | inr nc ↦ elim (Bool-cases (b == dynamic_type_id)) [
      | inl middle ↦ le_top a c ia ic (le_from_dynamic b c ib ic middle bc)
      | inr nb ↦ elim (Bool-cases (a == dynamic_type_id)) [
        | inl bottom ↦ let middle = le_from_dynamic a b ia ib bottom ab in cc
        | inr na ↦ elim (Bool-cases (a == b)) [
          | inl same ↦ let e : b ≡ a = ground arith in rw e at bc
          | inr n_ab ↦ elim (Bool-cases (b == c)) [
            | inl same ↦ let e : b ≡ c = ground arith in rw e at ab
            | inr n_bc ↦ elim (Bool-cases (a == c)) [
              | inl same ↦ le_refl a c ia ic same
              | inr n_ac ↦
                  let below =
                    λ (x y z : ℕ) (ix : IsTypeId p x) (iy : IsTypeId p y) (iz : IsTypeId p z)
                        (o : rank x + rank y + rank z < rank a + rank b + rank c).
                      le_trans n x y z ix iy iz (omega arith) in
                  body_trans a b c ia ib ic below ab bc (view p a) (view p b) (view p c)
                    (view-IsViewBelow a ia (ground arith)) (view-IsViewBelow b ib (ground arith))
                    (view-IsViewBelow c ic (ground arith)) (λ e. le-body a c ia ic na nc n_ac ∙ e)
                    (sym (le-body a b ia ib na nb n_ab) ∙ ab)
                    (sym (le-body b c ib ic nb nc n_bc) ∙ bc)
            ]
          ]
        ]
      ]
    ]
  ]

-- On a table whose complex types have children of smaller rank, with fuel above the sum of the ranks,
-- `subtype` returns true or false for any two type ids of the table, dynamic included, and returns the
-- same whatever the fuel.
pub subtype_total :
    (p : Program) (rank : ℕ → ℕ) (n m a b : ℕ)
    → IsRanked p rank
    → IsTypeId p a
    → IsTypeId p b
    → rank a + rank b < n
    → rank a + rank b < m
    → (v : Bool) × (subtype n p a b ≡ some v) × (subtype m p a b ≡ some v)
subtype_total p rank n m a b w ia ib h k =
    (le p rank w a b, subtype-le p rank w n a b ia ib h, subtype-le p rank w m a b ia ib k)

-- On such a table, with fuel enough for the three questions, subtyping is transitive: through unions,
-- tuples, arrays, cowns and references.
pub subtype_trans :
    (p : Program) (rank : ℕ → ℕ) (n a b c : ℕ)
    → IsRanked p rank
    → (IsTypeId p a × IsTypeId p b × IsTypeId p c)
    → (rank a + rank b < n) × (rank b + rank c < n) × (rank a + rank c < n)
    → subtype n p a b ≡ some true
    → subtype n p b c ≡ some true
    → subtype n p a c ≡ some true
subtype_trans p rank n a b c w (ia, ib, ic) (hab, hbc, hac) ab bc =
    let ab' : le p rank w a b ≡ true = cc (subtype-le p rank w n a b ia ib hab) in
    let bc' : le p rank w b c ≡ true = cc (subtype-le p rank w n b c ib ic hbc) in
    let ac =
      le_trans p rank w (suc (rank a + rank b + rank c)) a b c ia ib ic (omega arith) ab' bc' in
    subtype-le p rank w n a c ia ic hac ∙ ap some ac
