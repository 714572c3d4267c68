-- ===== src/Vbci/Types/Layout/Tests.antt =====
-- Tests of the layouts, on the table of the type tests.
use verona_bc.Prelude.{ℕ, zero, suc, ◌≡◌, ◌⊎◌, inr, false, some, refl, arith, get_elem?}
use verona_bc.Vbci.Types.{ComplexType}
use verona_bc.Vbci.Types.Tests.{bytes, pair_of_bytes, maybe_bytes, three, depth, three-IsRanked}
use verona_bc.Vbci.Types.Layout.{Rep, dynamic_rep, layout_type_id, layout_union_type}
use verona_bc.Vbci.Types.Layout.Union.{layout_type_id-union}
use verona_bc.Vbci.Types.Layout.Total.{IsInhabited, layout_type_id-IsTotal}

maybe_rep : layout_type_id 6 false three 22 ≡ some dynamic_rep
unfolding layout_type_id layout_union_type
maybe_rep = refl

layout_type_id-union_example :
    (layout_type_id 5 false three 20 ≡ some dynamic_rep) ⊎ (dynamic_rep ≡ dynamic_rep)
layout_type_id-union_example =
    layout_type_id-union 5 22 0 20 false three maybe_bytes dynamic_rep (omega arith) (omega arith)
      (omega arith, refl) refl maybe_rep refl

three-IsInhabited :
    (i : ℕ) (t : ComplexType)
    → get_elem? three.complex_types i ≡ some t
    → IsInhabited t.tag t.children
three-IsInhabited zero t e = let e' : t ≡ bytes = cc in rw e' tt
three-IsInhabited (suc zero) t e = let e' : t ≡ pair_of_bytes = cc in rw e' tt
three-IsInhabited (suc (suc zero)) t e = let e' : t ≡ maybe_bytes = cc in rw e' tt
three-IsInhabited (suc (suc (suc i))) t e = cc

layout_type_id-IsTotal_example : (r : Rep) × (layout_type_id 9 false three 22 ≡ some r)
layout_type_id-IsTotal_example =
    layout_type_id-IsTotal three depth false 9 22 three-IsRanked (omega arith) three-IsInhabited
      (inr (omega arith)) (omega arith)
