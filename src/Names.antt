-- ===== src/Names.antt =====
-- The names of VIRC: the string table of virc/model/name_table.cc, and the ids by name of FuncState and Compilation
-- in virc/model/compilation.cc. A node of the tree is a number. An access out of range is `none`.
pub mod Interned
pub mod Entries
pub mod Tests
use Prim.Native.String.{String}
use text.Mathlib.Text.{◌==◌ as str_eq}
use verona_bc.Prelude.{
  ℕ, ◌+◌, Bool, true, false, Option, none, some, List, [], ◌∷◌, ◌++◌, ◌==◌, if◌then◌else◌,
  get_elem?, set, length,
}
use verona_bc.Prelude.Fallible.{◌>>=◌}

-- `lookup` has the views into `store` with their indices.
pub record StringTable : Type 0 where
  pub store : List String
  pub lookup : List (String × ℕ)

pub find_string : List (String × ℕ) → String → Option ℕ
find_string [] s = none
find_string ((t, i) ∷ rest) s = if str_eq t s then some i else find_string rest s

pub string : StringTable → String → StringTable × ℕ
unfolding find_string
string t s = elim (find_string t.lookup s) [
  | some i ↦ (t, i)
  | none ↦ (
    record { store = t.store ++ s ∷ []; lookup = (s, length t.store) ∷ t.lookup },
    length t.store,
  )
]

-- A std::unordered_map from the indices of a string table to ids.
abbrev pub Ids : Type 0
Ids = List (ℕ × ℕ)

pub find_id : Ids → ℕ → Option ℕ
find_id [] k = none
find_id ((j, i) ∷ rest) k = if j == k then some i else find_id rest k

-- `ids.insert({name, ids.size()})`.
abbrev pub insert_next : Ids → ℕ → Ids
insert_next ids name = (name, length ids) ∷ ids

-- Ids with the vector of what they stand for, such as class_ids and classes.
pub record Registry {ℓ} (A : Type ℓ) : Type ℓ where
  pub ids : Ids
  pub items : List A

-- `get_class_id`, `get_typealias_id`, `get_symbol_id`, `get_library_id`, `get_register_id`, `get_label_id`: the
-- name enters the string table also where it has no id.
pub get_id {ℓ} : {A : Type ℓ} → StringTable → Registry A → String → StringTable × Option ℕ
unfolding string find_id
get_id t r s = let (t', name) = string t s in (t', find_id r.ids name)

-- `get_typealias`, `get_symbol`, `get_label`: what has been added under the name.
pub get_item {ℓ} : {A : Type ℓ} → StringTable → Registry A → String → StringTable × Option A
unfolding string find_id
get_item t r s =
    let (t', name) = string t s in (t', (do id ← find_id r.ids name; get_elem? r.items id))

-- `add_class`, `add_typealias`, `add_library`, `add_register`, `add_label`: false for a name that is
-- there.
pub add {ℓ} : {A : Type ℓ} → StringTable → Registry A → String → A → StringTable × Registry A × Bool
unfolding string find_id
add t r s item =
    let (t', name) = string t s in
    elim (find_id r.ids name) [
      | some id ↦ (t', r, false)
      | none ↦ (t', record { ids = insert_next r.ids name; items = r.items ++ item ∷ [] }, true)
    ]
