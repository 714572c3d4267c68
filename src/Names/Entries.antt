-- ===== src/Names/Entries.antt =====
-- The ids by name as a list of distinct names in the order in which they were added.
use Prim.Native.String.{String}
use text.Mathlib.Text.{◌==◌ as str_eq}
use text.Mathlib.TextEquality.{eq_iff}
use verona_bc.Prelude.{
  ℕ, suc, ◌<◌, ◌≡◌, refl, sym, ap, ◌∙◌, Bool, true, false, Option, none, some, List, [], ◌∷◌, ◌++◌,
  ◌==◌, if◌then◌else◌, arith, get_elem?, length, length-append, inl, inr, Bool-cases, Option-cases,
}
use verona_bc.Prelude.Fallible.{◌>>=◌}
use verona_bc.Names.{
  StringTable, find_string, string, Ids, find_id, insert_next, Registry, get_id, add,
}
use verona_bc.Names.Interned.{IsTable, Strung, string_in, get_elem?-lt}

abbrev pub index_of : String → List String → Option ℕ
index_of s [] = none
index_of s (t ∷ ts) = if str_eq t s then some 0 else (do i ← index_of s ts; some (suc i))

abbrev pub is_none {ℓ} : {A : Type ℓ} → Option A → Bool
is_none none = true
is_none (some a) = false

index_of-append :
    (u s : String) (names : List String)
    → index_of s names ≡ none
    → index_of u (names ++ s ∷ []) ≡ (if str_eq s u then some (length names) else index_of u names)
index_of-append u s [] e = refl
index_of-append u s (t ∷ ts) e =
    let other : str_eq t s ≡ false = ground arith in
    let absent : index_of s ts ≡ none = ground arith in
    ground (arith, eq_iff t u, eq_iff s u, eq_iff t s, index_of-append u s ts absent)

-- The ids stand for the names: a name that the table knows has the id of its place, and any other none.
pub record Represents (t : StringTable) (ids : Ids) (names : List String) : Type 0 where
  pub table : IsTable t
  pub bound : (k i : ℕ) → find_id ids k ≡ some i → k < length t.store
  pub size : length ids ≡ length names
  pub agrees : (s : String) → (find_string t.lookup s >>= find_id ids) ≡ index_of s names

module _ (t : StringTable) (ids : Ids) (names : List String) (h : Represents t ids names)
    (s : String) where
  module _ (t' : StringTable) (i : ℕ) (g : Strung t s t' i) where
    pub id_there : find_id ids i ≡ index_of s names
    id_there = elim (Option-cases (find_string t.lookup s)) [
      | inr (j, e) ↦ let same : j ≡ i = g.old j e in rw (sym same) (rw e at (h.agrees s))
      | inl e ↦ elim (Option-cases (find_id ids i)) [
        | inl none_yet ↦ none_yet ∙ rw e at (h.agrees s)
        | inr (j, taken) ↦ absurd (omega (arith, h.bound i j taken, g.fresh e))
      ]
    ]

    pub still-Represents : Represents t' ids names
    still-Represents = record {
      table = g.table;
      bound = λ k j e. omega (arith, h.bound k j e, g.size);
      size = h.size;
      agrees = λ u. elim (Bool-cases (str_eq s u)) [
        | inl same ↦
            let eq : s ≡ u = (eq_iff s u).0 same in rw (g.found u, same) (rw (sym eq) id_there)
        | inr other ↦ rw (g.found u, other) (h.agrees u)
      ];
    }

    place_lt : i < length t'.store
    place_lt =
        let known : find_string t'.lookup s ≡ some i = ground (arith, g.found s, eq_iff s s) in
        get_elem?-lt t'.store i (g.table.sound s i known)

    other_place :
        (u : String) (k : ℕ)
        → str_eq s u ≡ false
        → find_string t.lookup u ≡ some k
        → (i == k) ≡ false
    other_place u k ne e = elim (Bool-cases (i == k)) [
      | inr differ ↦ differ
      | inl same ↦
          let known : find_string t'.lookup s ≡ some i = ground (arith, g.found s, eq_iff s s) in
          let known' : find_string t'.lookup u ≡ some k = g.found u ∙ rw ne e in
          let at_i = g.table.sound s i known in
          let at_k = g.table.sound u k known' in
          let eq : i ≡ k = ground arith in
          let at_i' : get_elem? t'.store k ≡ some s = rw eq at at_i in
          absurd (ground (arith, eq_iff s u))
    ]

    pub insert-Represents :
        find_id ids i ≡ none → Represents t' (insert_next ids i) (names ++ s ∷ [])
    unfolding find_id
    insert-Represents new = record {
      table = g.table;
      bound = λ k j e. ground (arith, place_lt, h.bound k j, g.size);
      size = omega (arith, h.size, length-append names (s ∷ []));
      agrees = agrees';
    }
      where
        absent : index_of s names ≡ none
        absent = sym id_there ∙ new

        agrees' :
            (u : String)
            → (find_string t'.lookup u >>= find_id (insert_next ids i))
              ≡ index_of u (names ++ s ∷ [])
        agrees' u = elim (Bool-cases (str_eq s u)) [
          | inl same ↦
              rw (g.found u, index_of-append u s names absent, same) (ground (arith, h.size))
          | inr other ↦
              rw (g.found u, index_of-append u s names absent, other)
                (elim (Option-cases (find_string t.lookup u)) [
                  | inl unknown ↦ rw unknown (rw unknown at (h.agrees u))
                  | inr (k, e) ↦ rw (e, other_place u k other e) (rw e at (h.agrees u))
                ])
        ]

-- The registry stands for the names: its ids do, and there is an item for each.
pub record IsRegistry {ℓ} {A : Type ℓ} (t : StringTable) (r : Registry A) (names : List String)
    : Type ℓ where
  pub ids : Represents t r.ids names
  pub items : length r.items ≡ length names

-- Where the registry stands for a list of names, `get_…_id` answers with the place of the name in the list, or with
-- none for a name that is not in it; the registry stands for the same list afterwards.
pub get_id-IsRegistry {ℓ} :
    {A : Type ℓ} (t : StringTable) (r : Registry A) (names : List String) (s : String)
    → IsRegistry t r names
    → (t' : StringTable) × (get_id t r s ≡ (t', index_of s names)) × IsRegistry t' r names
unfolding get_id
get_id-IsRegistry t r names s h =
    let (t', i, g) = string_in t s h.ids.table in
    (
      t',
      rw (g.gives, id_there t r.ids names h.ids s t' i g) refl,
      record { ids = still-Represents t r.ids names h.ids s t' i g; items = h.items },
    )

-- `add`, by what `string` gives.
abbrev add_at {ℓ} :
    {A : Type ℓ} → StringTable × ℕ → Registry A → A → StringTable × Registry A × Bool
add_at (t', name) r item = elim (find_id r.ids name) [
  | some id ↦ (t', r, false)
  | none ↦ (t', record { ids = insert_next r.ids name; items = r.items ++ item ∷ [] }, true)
]

add-add_at {ℓ} :
    {A : Type ℓ} (t : StringTable) (r : Registry A) (s : String) (item : A)
    → add t r s item ≡ add_at (string t s) r item
unfolding add
add-add_at t r s item = refl

module _ {ℓ} {A : Type ℓ} (t t' : StringTable) (r : Registry A) (s : String) (item : A) (i : ℕ)
    (e : string t s ≡ (t', i)) where
  add_fresh :
      find_id r.ids i ≡ none
      → add t r s item
        ≡ (t', record { ids = insert_next r.ids i; items = r.items ++ item ∷ [] }, true)
  add_fresh new = add-add_at t r s item ∙ ap (λ p. add_at p r item) e ∙ rw (add_at, new) refl

  add_old : (k : ℕ) → find_id r.ids i ≡ some k → add t r s item ≡ (t', r, false)
  add_old k old = add-add_at t r s item ∙ ap (λ p. add_at p r item) e ∙ rw (add_at, old) refl

-- Where the registry stands for a list of names, `add_…` returns true exactly for a name that is not in the list, and
-- puts it at the end of the list, with its item; the registry stands for the new list, so every name that was
-- there keeps its id, and no two names have the same.
pub add-IsRegistry {ℓ} :
    {A : Type ℓ} (t : StringTable) (r : Registry A) (names : List String) (s : String) (item : A)
    → IsRegistry t r names
    → let new = is_none (index_of s names) in
      (t' : StringTable) × (r' : Registry A) × (add t r s item ≡ (t', r', new))
      × (r'.items ≡ (if new then r.items ++ item ∷ [] else r.items))
      × IsRegistry t' r' (if new then names ++ s ∷ [] else names)
add-IsRegistry t r names s item h =
    let (t', i, g) = string_in t s h.ids.table in
    let there = id_there t r.ids names h.ids s t' i g in
    elim (Option-cases (find_id r.ids i)) [
      | inl fresh ↦
          let absent : index_of s names ≡ none = sym there ∙ fresh in
          rw absent (
            t',
            record { ids = insert_next r.ids i; items = r.items ++ item ∷ [] },
            add_fresh t t' r s item i g.gives fresh,
            refl,
            record {
              ids = insert-Represents t r.ids names h.ids s t' i g fresh;
              items =
                  omega (
                    arith,
                    h.items,
                    length-append names (s ∷ []),
                    length-append r.items (item ∷ []),
                  );
            },
          )
      | inr (k, old) ↦
          let present : index_of s names ≡ some k = sym there ∙ old in
          rw present (
            t',
            r,
            add_old t t' r s item i g.gives k old,
            refl,
            record { ids = still-Represents t r.ids names h.ids s t' i g; items = h.items },
          )
    ]
