-- ===== src/Vbci/Types/Answers.antt =====
-- What the loops of `subtype` make of answers that compose.
use verona_bc.Prelude.{ℕ, ◌≡◌, inl, inr, Bool, true, List, [], ◌∷◌, refl, arith, All, Bool-cases}
use verona_bc.Vbci.Types.{TypeTag, array, same_tag}
use verona_bc.Vbci.Types.Step.{all, any, zip_all}

pub all_map :
    {f g : ℕ → Bool} {P : ℕ → Type 0} (cs : List ℕ)
    → ((c : ℕ) → P c → f c ≡ true → g c ≡ true)
    → All P cs
    → all f cs ≡ true
    → all g cs ≡ true
all_map [] h q e = refl
all_map {f} {g} (c ∷ cs) h q e =
    let here : f c ≡ true = ground arith in
    let rest = all_map {f = f} {g = g} cs h q.1 (ground arith) in ground (arith, h c q.0 here)

pub any_map :
    {f g : ℕ → Bool} {P : ℕ → Type 0} (cs : List ℕ)
    → ((c : ℕ) → P c → f c ≡ true → g c ≡ true)
    → All P cs
    → any f cs ≡ true
    → any g cs ≡ true
any_map [] h q e = e
any_map {f} {g} (c ∷ cs) h q e = elim (Bool-cases (f c)) [
  | inl here ↦ ground (arith, h c q.0 here)
  | inr no_more ↦ let rest = any_map {f = f} {g = g} cs h q.1 (ground arith) in ground arith
]

-- A member that `f` accepts is one that `g` accepts.
pub any_of_all :
    {f g : ℕ → Bool} {P : ℕ → Type 0} {r : Bool} (cs : List ℕ)
    → ((c : ℕ) → P c → f c ≡ true → g c ≡ true → r ≡ true)
    → All P cs
    → any f cs ≡ true
    → all g cs ≡ true
    → r ≡ true
any_of_all [] h q e k = cc
any_of_all {f} {g} (c ∷ cs) h q e k = elim (Bool-cases (f c)) [
  | inl here ↦ h c q.0 here (ground arith)
  | inr no_more ↦ any_of_all {f = f} {g = g} cs h q.1 (ground arith) (ground arith)
]

-- Composition, element by element.
pub zip_all_map :
    {f g k : ℕ → ℕ → Bool} {P Q R : ℕ → Type 0} (cs ds es : List ℕ)
    → ((c d e : ℕ) → P c → Q d → R e → f c d ≡ true → g d e ≡ true → k c e ≡ true)
    → All P cs
    → All Q ds
    → All R es
    → zip_all f cs ds ≡ true
    → zip_all g ds es ≡ true
    → zip_all k cs es ≡ true
zip_all_map {f} {g} {k} (c ∷ cs) (d ∷ ds) (e ∷ es) h p q r x y =
    let rest =
      zip_all_map {f = f} {g = g} {k = k} cs ds es h p.1 q.1 r.1 (ground arith) (ground arith) in
    ground (arith, h c d e p.0 q.0 r.0)
zip_all_map [] [] [] h p q r x y = refl
zip_all_map cs ds es h p q r x y = ground arith

pub zip_all_into :
    {f : ℕ → ℕ → Bool} {g k : ℕ → Bool} {P Q : ℕ → Type 0} (cs ds : List ℕ)
    → ((c d : ℕ) → P c → Q d → f c d ≡ true → g d ≡ true → k c ≡ true)
    → All P cs
    → All Q ds
    → zip_all f cs ds ≡ true
    → all g ds ≡ true
    → all k cs ≡ true
zip_all_into {f} {g} {k} (c ∷ cs) (d ∷ ds) h p q x y =
    let rest = zip_all_into {f = f} {g = g} {k = k} cs ds h p.1 q.1 (ground arith) (ground arith) in
    ground (arith, h c d p.0 q.0)
zip_all_into [] [] h p q x y = refl
zip_all_into cs ds h p q x y = ground arith

pub same_tag_trans :
    (t t' t'' : TypeTag) → same_tag t t' ≡ true → same_tag t' t'' ≡ true → same_tag t t'' ≡ true
same_tag_trans array t' t'' h k = ground arith
same_tag_trans t t' t'' h k = ground arith
