-- ===== src/Names/Interned.antt =====
-- The string table as a numbering of the texts that it has met.
use Prim.Native.String.{String}
use text.Mathlib.Text.{◌==◌ as str_eq}
use text.Mathlib.TextEquality.{eq_iff}
use verona_bc.Prelude.{
  ℕ, zero, suc, ◌≤◌, ◌<◌, ◌≡◌, refl, sym, ap, ◌∙◌, none, some, List, [], ◌∷◌, ◌++◌, ◌==◌,
  if◌then◌else◌, arith, get_elem?, length, length-append, inl, inr, Bool-cases, Option-cases,
}
use verona_bc.Names.{StringTable, find_string, string}

pub record IsTable (t : StringTable) : Type 0 where
  pub sound : (s : String) (i : ℕ) → find_string t.lookup s ≡ some i → get_elem? t.store i ≡ some s
  pub full : (s : String) (i : ℕ) → get_elem? t.store i ≡ some s → find_string t.lookup s ≡ some i

pub get_elem?-append_one {ℓ} :
    {A : Type ℓ} (xs : List A) (x : A) (i : ℕ)
    → get_elem? (xs ++ x ∷ []) i ≡ (if i == length xs then some x else get_elem? xs i)
get_elem?-append_one [] x zero = refl
get_elem?-append_one [] x (suc i) = ground arith
get_elem?-append_one (y ∷ xs) x zero = ground arith
get_elem?-append_one (y ∷ xs) x (suc i) = ground (arith, get_elem?-append_one xs x i)

pub get_elem?-lt {ℓ} :
    {A : Type ℓ} (xs : List A) (i : ℕ) {x : A} → get_elem? xs i ≡ some x → i < length xs
get_elem?-lt [] i h = cc
get_elem?-lt (y ∷ xs) zero h = omega arith
get_elem?-lt (y ∷ xs) (suc i) h = omega (arith, get_elem?-lt xs i h)

abbrev pub grown : StringTable → String → StringTable
grown t s = record { store = t.store ++ s ∷ []; lookup = (s, length t.store) ∷ t.lookup }

module _ (t : StringTable) (s : String) where
  pub string_old : (i : ℕ) → find_string t.lookup s ≡ some i → string t s ≡ (t, i)
  unfolding string
  string_old i e = rw (string, e) refl

  pub string_new : find_string t.lookup s ≡ none → string t s ≡ (grown t s, length t.store)
  unfolding string
  string_new e = rw (string, e) refl

  grown_full :
      IsTable t
      → (u : String) (j : ℕ) → find_string t.lookup s ≡ none
      → get_elem? (grown t s).store j ≡ some u
      → find_string (grown t s).lookup u ≡ some j
  unfolding find_string
  grown_full h u j e g =
      let one = get_elem?-append_one t.store s j in
      elim (Bool-cases (j == length t.store)) [
        | inl last ↦ let same : s ≡ u = ground arith in ground (arith, eq_iff s u)
        | inr before ↦
            let old : get_elem? t.store j ≡ some u = ground arith in
            let seen = h.full u j old in
            elim (Bool-cases (str_eq s u)) [
              | inl same ↦
                  let eq : s ≡ u = (eq_iff s u).0 same in
                  let none_u : find_string t.lookup u ≡ none = rw (sym eq) e in absurd (cc)
              | inr other ↦ rw other seen
            ]
      ]

  grown_sound :
      IsTable t
      → (u : String) (j : ℕ) → find_string (grown t s).lookup u ≡ some j
      → get_elem? (grown t s).store j ≡ some u
  unfolding find_string
  grown_sound h u j g =
      let one = get_elem?-append_one t.store s j in
      elim (Bool-cases (str_eq s u)) [
        | inl same ↦
            let eq : s ≡ u = (eq_iff s u).0 same in
            let last : length t.store ≡ j = ground arith in ground arith
        | inr other ↦
            let old = h.sound u j (ground arith) in
            let below = get_elem?-lt t.store j old in ground arith
      ]

  -- What `string` gives: the text's index, in a table where every other text keeps the index it had.
  pub record Strung (t' : StringTable) (i : ℕ) : Type 0 where
    pub gives : string t s ≡ (t', i)
    pub table : IsTable t'
    pub size : length t.store ≤ length t'.store
    pub old : (j : ℕ) → find_string t.lookup s ≡ some j → j ≡ i
    pub fresh : find_string t.lookup s ≡ none → i ≡ length t.store
    pub found :
        (u : String)
        → find_string t'.lookup u ≡ (if str_eq s u then some i else find_string t.lookup u)

  pub string_in : IsTable t → (t' : StringTable) × (i : ℕ) × Strung t' i
  unfolding find_string
  string_in h = elim (Option-cases (find_string t.lookup s)) [
    | inr (i, e) ↦ (
      t,
      i,
      record {
        gives = string_old i e;
        table = h;
        size = omega arith;
        old = λ j e'. cc;
        fresh = λ e'. absurd (cc);
        found = λ u. elim (Bool-cases (str_eq s u)) [
          | inl same ↦
              let eq : s ≡ u = (eq_iff s u).0 same in
              rw same (ap (find_string t.lookup) (sym eq) ∙ e)
          | inr other ↦ rw other refl
        ];
      },
    )
    | inl e ↦ (
      grown t s,
      length t.store,
      record {
        gives = string_new e;
        table = record { sound = grown_sound h; full = λ u j g. grown_full h u j e g };
        size = omega (arith, length-append t.store (s ∷ []));
        old = λ j e'. absurd (cc);
        fresh = λ e'. refl;
        found = λ u. refl;
      },
    )
  ]
