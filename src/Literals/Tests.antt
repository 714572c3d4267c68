-- ===== src/Literals/Tests.antt =====
-- Tests of the characters of string literals.
use verona_bc.Prelude.{◌≡◌, ◌↔◌, false, none, some, [], ◌∷◌, refl}
use verona_bc.Literals.{append_utf8}
use verona_bc.Literals.Utf8.{is_scalar, append_utf8_refuses_iff}

-- A surrogate.
append_utf8_refuses_iff_example : (append_utf8 0xd800 [] ≡ none) ↔ (is_scalar 0xd800 ≡ false)
append_utf8_refuses_iff_example = append_utf8_refuses_iff 0xd800 []

euro_bytes : append_utf8 0x20ac [] ≡ some (0xe2 ∷ 0x82 ∷ 0xac ∷ [])
unfolding append_utf8
euro_bytes = refl
