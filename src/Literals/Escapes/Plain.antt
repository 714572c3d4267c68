-- ===== src/Literals/Escapes/Plain.antt =====
-- `unescape` on a text without escapes.
use verona_bc.Prelude.{
  ℕ, suc, ◌+◌, ◌≡◌, false, List, [], ◌∷◌, ◌++◌, ◌==◌, All, length, drop, get_elem?-drop, drop-suc,
  arith, refl, ◌∙◌, ap, sym,
}
use mathlib.Core.List.{append-nil, append_assoc}
use verona_bc.Literals.Escapes.{text, unescape_loop, unescape}

plain_loop :
    (tl s out : List ℕ) (i : ℕ)
    → All (λ c. (c == 92) ≡ false) tl
    → drop i s ≡ tl
    → unescape_loop (length tl) s i out ≡ text (out ++ tl)
unfolding unescape_loop
plain_loop [] s out i h d = ap text (sym (append-nil out))
plain_loop (c ∷ tl) s out i h d =
    let e = get_elem?-drop i s d in
    let next =
      plain_loop tl s (out ++ (c ∷ [])) (i + 1) h.1
        (let z : suc i ≡ i + 1 = omega arith in rw z at (drop-suc i s d)) in
    rw (e, unescape_loop, h.0) (next ∙ ap text (append_assoc out (c ∷ []) tl))

-- A text without a backslash unescapes to itself.
pub unescape_plain : (s : List ℕ) → All (λ c. (c == 92) ≡ false) s → unescape s ≡ text s
unfolding unescape
unescape_plain s h = plain_loop s s [] 0 h refl
