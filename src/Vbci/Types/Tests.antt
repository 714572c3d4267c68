-- ===== src/Vbci/Types/Tests.antt =====
-- Tests of the types of a program: the array of u8, the pair of u8, and the union of the array and none.
use verona_bc.Prelude.{
  ℕ, zero, suc, ◌+◌, ◌-◌, ◌<◌, ◌≡◌, Bool, true, some, [], ◌∷◌, inr, refl, arith, All, get_elem?,
}
use verona_bc.Vbci.Types.{
  array, union, tuple, ComplexType, Program, subtype, subtype_distinct, subtype_complex, is_union,
  any_of,
}
use verona_bc.Vbci.Types.Step.{IsRanked, IsTypeId, IsShaped}
use verona_bc.Vbci.Types.Preorder.{subtype_total, subtype_trans}

abbrev pub bytes : ComplexType
bytes = record { tag = array; children = 6 ∷ [] }

abbrev pub pair_of_bytes : ComplexType
pair_of_bytes = record { tag = tuple; children = 6 ∷ 6 ∷ [] }

abbrev pub maybe_bytes : ComplexType
maybe_bytes = record { tag = union; children = 20 ∷ 0 ∷ [] }

abbrev pub three : Program
three = record {
  min_complex_type_id = 20;
  complex_types = bytes ∷ pair_of_bytes ∷ maybe_bytes ∷ [];
  ref_map = [];
  typeid_ref_dyn = 20;
}

abbrev pub depth : ℕ → ℕ
depth a = a - 19

three-children :
    (i : ℕ) (t : ComplexType)
    → get_elem? three.complex_types i ≡ some t
    → All (λ c. IsTypeId three c × (depth c < depth (20 + i))) t.children
three-children zero t e = let e' : t ≡ bytes = cc in rw e' ((inr (omega arith), omega arith), tt)
three-children (suc zero) t e =
    let e' : t ≡ pair_of_bytes = cc in
    rw e' ((inr (omega arith), omega arith), ((inr (omega arith), omega arith), tt))
three-children (suc (suc zero)) t e =
    let e' : t ≡ maybe_bytes = cc in
    rw e' ((inr (omega arith), omega arith), ((inr (omega arith), omega arith), tt))
three-children (suc (suc (suc i))) t e = cc

three-IsShaped :
    (i : ℕ) (t : ComplexType) → get_elem? three.complex_types i ≡ some t → IsShaped t.tag t.children
three-IsShaped zero t e = let e' : t ≡ bytes = cc in rw e' refl
three-IsShaped (suc zero) t e = let e' : t ≡ pair_of_bytes = cc in rw e' tt
three-IsShaped (suc (suc zero)) t e = let e' : t ≡ maybe_bytes = cc in rw e' tt
three-IsShaped (suc (suc (suc i))) t e = cc

pub three-IsRanked : IsRanked three depth
three-IsRanked = record { fits = omega arith; children = three-children; arity = three-IsShaped }

-- A pair of bytes is an array of bytes, and that is maybe an array of bytes.
pair-le-bytes : subtype 9 three 21 20 ≡ some true
unfolding subtype subtype_distinct is_union subtype_complex
pair-le-bytes = refl

subtype_total_example :
    (v : Bool) × (subtype 9 three 21 22 ≡ some v) × (subtype 7 three 21 22 ≡ some v)
subtype_total_example =
    subtype_total three depth 9 7 21 22 three-IsRanked (inr (omega arith)) (inr (omega arith))
      (omega arith) (omega arith)

bytes-le-maybe : subtype 9 three 20 22 ≡ some true
unfolding subtype subtype_distinct is_union any_of
bytes-le-maybe = refl

subtype_trans_example : subtype 9 three 21 22 ≡ some true
subtype_trans_example =
    subtype_trans three depth 9 21 20 22 three-IsRanked
      (inr (omega arith), inr (omega arith), inr (omega arith)) (omega arith) pair-le-bytes
      bytes-le-maybe
