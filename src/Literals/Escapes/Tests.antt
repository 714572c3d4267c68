-- ===== src/Literals/Escapes/Tests.antt =====
-- Tests of the escape sequences.
use verona_bc.Prelude.{◌≡◌, [], ◌∷◌, ◌++◌, refl}
use verona_bc.Literals.Escapes.{is_digit, is_xdigit, unescape, unescape_loses}

-- The exclamation mark behind the escape of an A.
unescape_loses_example :
    unescape (92 ∷ 120 ∷ ((52 ∷ 49 ∷ []) ++ (33 ∷ []))) ≡ unescape (92 ∷ 120 ∷ 52 ∷ 49 ∷ [])
unfolding is_xdigit is_digit
unescape_loses_example = unescape_loses (52 ∷ 49 ∷ []) 33 (refl, (refl, tt)) refl
