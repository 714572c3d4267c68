-- ===== src/Vbc/Tests.antt =====
-- The VBC theorems at concrete bytes.
use verona_bc.Vbci.Types.{ComplexType, ref, union, find as find_ref}
use verona_bc.Prelude.{ℕ, ◌+◌, ◌%◌, ◌^◌, ◌≡◌, refl, inl, inr, List, [], ◌∷◌, ◌++◌, arith, length}
use verona_bc.Vbc.Reader.{parsed}
use verona_bc.Vbc.Leb.{put_uleb, uleb, put_sleb, sleb, put_sleb_promoted}
use verona_bc.Vbc.Leb.RoundTrip.{uleb-put_uleb}
use verona_bc.Vbc.Leb.Zigzag.{sleb-put_sleb}
use verona_bc.Vbc.Leb.Promoted.{sleb-put_sleb_promoted, not-sleb-put_sleb_promoted}
use verona_bc.Vbc.Sections.{
  Function, put_function, parse_function, put_methods, parse_methods, find,
}
use verona_bc.Vbc.Sections.RoundTrip.{parse_function-put_function, IsFunction}
use verona_bc.Vbc.Sections.Tables.{parse_methods-put_methods}

-- The file's first number, its magic, behind one byte and before another.
uleb-put_uleb_example :
    uleb 1 (7 ∷ put_uleb 0xdec0_adde ++ (9 ∷ []))
    ≡ parsed 0xdec0_adde (1 + length (put_uleb 0xdec0_adde))
uleb-put_uleb_example =
    uleb-put_uleb 0xdec0_adde 1 (7 ∷ put_uleb 0xdec0_adde ++ (9 ∷ [])) (9 ∷ []) (omega arith) refl

magic_bytes : put_uleb 0xdec0_adde ≡ 0xde ∷ 0xdb ∷ 0x82 ∷ 0xf6 ∷ 0x0d ∷ []
unfolding put_uleb
magic_bytes = refl

-- -3 of 32 bits.
sleb-put_sleb_example :
    (value : ℕ) × (sleb 0 (put_sleb 32 0xffff_fffd ++ [])
      ≡ parsed value (0 + length (put_sleb 32 0xffff_fffd)))
    × (value % 2 ^ 32 ≡ 0xffff_fffd)
sleb-put_sleb_example =
    sleb-put_sleb 32 0xffff_fffd 0 (put_sleb 32 0xffff_fffd ++ []) [] (inl refl) (omega arith) refl

-- The i8 constant -100 (bit pattern 156), followed by the byte 1.
not-sleb-put_sleb_promoted_example :
    (length (put_sleb_promoted 8 156) ≡ 1)
    × ¬ ((sleb 0 (put_sleb_promoted 8 156 ++ (1 ∷ [])) ≡ parsed 156 1) × (156 % 2 ^ 8 ≡ 156))
not-sleb-put_sleb_promoted_example =
    not-sleb-put_sleb_promoted 8 156 0 156 (put_sleb_promoted 8 156 ++ (1 ∷ [])) (1 ∷ []) (inl refl)
      (omega arith) (omega arith) refl

-- The i16 constant -64 (bit pattern 65472).
sleb-put_sleb_promoted_example :
    (value : ℕ) × (sleb 0 (put_sleb_promoted 16 65472 ++ [])
      ≡ parsed value (0 + length (put_sleb_promoted 16 65472)))
    × (value % 2 ^ 16 ≡ 65472)
sleb-put_sleb_promoted_example =
    sleb-put_sleb_promoted 16 65472 0 (put_sleb_promoted 16 65472 ++ []) [] (inr refl)
      (inr (omega arith, omega arith)) refl

abbrev names : List (List ℕ)
names = (104 ∷ 105 ∷ []) ∷ [] ∷ (42 ∷ []) ∷ []

abbrev main_function : Function
main_function = record {
  registers = 300;
  debug_info = 2;
  param_types = 17 ∷ 0xffff_ffff ∷ [];
  return_type = 0;
  var_types = 3 ∷ [];
  labels = 0 ∷ 130 ∷ [];
}

main_function-IsFunction : IsFunction main_function
main_function-IsFunction = record {
  registers_fit = omega arith;
  debug_info_fits = omega arith;
  params_fit = omega arith;
  param_types_fit = omega arith;
  return_type_fits = omega arith;
  vars_fit = omega arith;
  var_types_fit = omega arith;
  labels_fit = omega arith;
  label_pcs_fit = omega arith;
  has_label = λ e. cc;
}

parse_function-put_function_example :
    parse_function 0 (put_function main_function ++ (1 ∷ []))
    ≡ parsed main_function (0 + length (put_function main_function))
parse_function-put_function_example =
    parse_function-put_function main_function 0 (put_function main_function ++ (1 ∷ [])) (1 ∷ [])
      main_function-IsFunction refl

abbrev two_methods : List (ℕ × ℕ)
two_methods = (0, 4) ∷ (7, 5) ∷ []

parse_methods-put_methods_example :
    (m : List (ℕ × ℕ)) × (parse_methods 0 (put_methods two_methods ++ [])
      ≡ parsed m (0 + length (put_methods two_methods)))
    × ((k : ℕ) → find k m ≡ find k two_methods)
parse_methods-put_methods_example =
    parse_methods-put_methods two_methods 0 (put_methods two_methods ++ []) [] (omega arith)
      (omega arith) refl

abbrev a_ref : ComplexType
a_ref = record { tag = ref; children = 5 ∷ [] }

abbrev a_union : ComplexType
a_union = record { tag = union; children = 0 ∷ 300 ∷ [] }
