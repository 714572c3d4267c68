-- ===== src/Vbc/Sections/Decodes.antt =====
-- A reader undoes a writer, wherever the bytes stand and whatever follows them.
use mathlib.Core.List.{append_assoc}
use verona_bc.Prelude.{
  ℕ, ◌+◌, ◌%◌, ◌^◌, ◌<◌, ◌≡◌, refl, ap, ◌∙◌, List, [], ◌∷◌, ◌++◌, arith, length, length-append,
  drop, drop-append, get_elem?-drop, All,
}
use verona_bc.Vbc.Reader.{parsed, Reader, pure, ◌>>=◌}
use verona_bc.Vbc.Leb.{put_uleb, uleb}
use verona_bc.Vbc.Leb.RoundTrip.{uleb-put_uleb}
use verona_bc.Vbc.Sections.{
  put_each, put_counted, read_each, read_counted, uleb32, byte, str, put_string,
}

abbrev pub Decodes : {A : Type 0} → Reader A → List ℕ → A → Type 0
Decodes read bs a =
    (pc : ℕ) (from rest : List ℕ)
    → drop pc from ≡ bs ++ rest
    → read pc from ≡ parsed a (pc + length bs)

pub Decodes-pure : {A : Type 0} (a : A) → Decodes (pure a) [] a
Decodes-pure a pc from rest d = ap (parsed a) (omega arith)

module _ {A B : Type 0} where
  -- One read after another.
  pub Decodes-bind :
      (r : Reader A) (k : A → Reader B) (bs cs : List ℕ) (a : A) (b : B)
      → Decodes r bs a
      → Decodes (k a) cs b
      → Decodes (r >>= k) (bs ++ cs) b
  Decodes-bind r k bs cs a b h g pc from rest d =
      let d' : drop pc from ≡ bs ++ (cs ++ rest) = d ∙ append_assoc bs cs rest in
      let there : (pc + length bs) + length cs ≡ pc + length (bs ++ cs) =
        omega (arith, length-append bs cs) in
      rw (h pc from (cs ++ rest) d', ◌>>=◌)
        (g (pc + length bs) from rest (drop-append bs pc from d') ∙ ap (parsed b) there)

  -- A last read, and what is made of it.
  pub Decodes-map :
      (r : Reader A) (f : A → B) (bs : List ℕ) (a : A)
      → Decodes r bs a
      → Decodes (r >>= λ x. pure (f x)) bs (f a)
  Decodes-map r f bs a h pc from rest d = rw (h pc from rest d, ◌>>=◌) refl

pub Decodes-uleb : (v : ℕ) → v < 2 ^ 64 → Decodes uleb (put_uleb v) v
Decodes-uleb v h pc from rest d = uleb-put_uleb v pc from rest h d

pub Decodes-uleb32 : (v : ℕ) → v < 2 ^ 32 → Decodes uleb32 (put_uleb v) v
unfolding uleb32
Decodes-uleb32 v h pc from rest d =
    let same : v % 2 ^ 32 ≡ v = omega arith in
    rw (uleb-put_uleb v pc from rest (omega arith) d, uleb32, ◌>>=◌) (rw same refl)

pub Decodes-each :
    {A : Type 0} (read : Reader A) (put : A → List ℕ) (P : A → Type 0)
    → ((a : A) → P a → Decodes read (put a) a)
    → (xs : List A) → All P xs
    → Decodes (read_each (length xs) read) (put_each put xs) xs
unfolding read_each put_each
Decodes-each read put P h [] ok = Decodes-pure []
Decodes-each read put P h (x ∷ xs) ok =
    Decodes-bind read _ (put x) (put_each put xs) x (x ∷ xs) (h x ok.0) (
      Decodes-map (read_each (length xs) read) (λ ys. x ∷ ys) (put_each put xs) xs
        (Decodes-each read put P h xs ok.1))

-- A counted sequence, for any element that its reader undoes.
pub Decodes-counted :
    {A : Type 0} (read : Reader A) (put : A → List ℕ) (P : A → Type 0)
    → ((a : A) → P a → Decodes read (put a) a)
    → (xs : List A) → length xs < 2 ^ 64
    → All P xs
    → Decodes (read_counted read) (put_counted put xs) xs
unfolding read_counted put_counted
Decodes-counted read put P h xs n ok =
    Decodes-bind uleb _ (put_uleb (length xs)) (put_each put xs) (length xs) xs
      (Decodes-uleb (length xs) n) (Decodes-each read put P h xs ok)

Decodes-byte : (b : ℕ) → Decodes byte (b ∷ []) b
unfolding byte
Decodes-byte b pc from rest d = rw (get_elem?-drop pc from d, byte) refl

put_each_bytes : (s : List ℕ) → put_each (λ b. b ∷ []) s ≡ s
unfolding put_each
put_each_bytes [] = refl
put_each_bytes (b ∷ s) = ap (◌∷◌ b) (put_each_bytes s)

every : (s : List ℕ) → All (λ b. Unit {0}) s
every [] = tt
every (b ∷ s) = (tt, every s)

pub Decodes-str : (s : List ℕ) → length s < 2 ^ 64 → Decodes str (put_string s) s
unfolding str put_string
Decodes-str s n =
    Decodes-bind uleb _ (put_uleb (length s)) s (length s) s (Decodes-uleb (length s) n) (
      rw (put_each_bytes s) at
        (Decodes-each byte (λ b. b ∷ []) (λ b. Unit) (λ b _. Decodes-byte b) s (every s)))
