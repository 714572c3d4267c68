-- ===== src/Names/Tests.antt =====
-- Runs on a registry with two names.
use verona_bc.Prelude.{ℕ, ◌≡◌, refl, sym, ap, ◌∙◌, true, [], ◌∷◌, ◌++◌, if◌then◌else◌}
use verona_bc.Names.{StringTable, Registry, get_id, add, find_string, find_id}
use verona_bc.Names.Entries.{index_of, is_none, IsRegistry, get_id-IsRegistry, add-IsRegistry}

abbrev empty_table : StringTable
empty_table = record { store = []; lookup = [] }

abbrev empty_registry : Registry ℕ
empty_registry = record { ids = []; items = [] }

empty-IsRegistry : IsRegistry empty_table empty_registry []
unfolding find_string find_id
empty-IsRegistry = record {
  ids = record {
    table = record { sound = λ s i e. absurd (cc); full = λ s i e. absurd (cc) };
    bound = λ k i e. absurd (cc);
    size = refl;
    agrees = λ s. refl;
  };
  items = refl;
}

-- A class that is new.
add-IsRegistry_example :
    let new = is_none (index_of "Cell" []) in
    (t' : StringTable) × (r' : Registry ℕ) × (add empty_table empty_registry "Cell" 4
      ≡ (t', r', new))
    × (r'.items ≡ (if new then empty_registry.items ++ 4 ∷ [] else empty_registry.items))
    × IsRegistry t' r' (if new then [] ++ "Cell" ∷ [] else [])
add-IsRegistry_example = add-IsRegistry empty_table empty_registry [] "Cell" 4 empty-IsRegistry

abbrev one_table : StringTable
one_table = record { store = "Cell" ∷ []; lookup = ("Cell", 0) ∷ [] }

abbrev one_registry : Registry ℕ
one_registry = record { ids = (0, 0) ∷ []; items = 4 ∷ [] }

add_one : add empty_table empty_registry "Cell" 4 ≡ (one_table, one_registry, true)
unfolding add
add_one = refl

add-IsRegistry_out :
    (t' : StringTable) × (r' : Registry ℕ) × (add empty_table empty_registry "Cell" 4
      ≡ (t', r', true))
    × (r'.items ≡ 4 ∷ [])
    × IsRegistry t' r' ("Cell" ∷ [])
add-IsRegistry_out = add-IsRegistry empty_table empty_registry [] "Cell" 4 empty-IsRegistry

one-IsRegistry : IsRegistry one_table one_registry ("Cell" ∷ [])
one-IsRegistry =
    let (t', r', e, kept, h) = add-IsRegistry_out in
    let same_t : t' ≡ one_table = ap (λ p. p.0) (sym e ∙ add_one) in
    let same_r : r' ≡ one_registry = ap (λ p. p.1) (sym e ∙ add_one) in rw (same_t, same_r) at h

get_id-IsRegistry_example :
    (t' : StringTable) × (get_id one_table one_registry "Cell"
      ≡ (t', index_of "Cell" ("Cell" ∷ [])))
    × IsRegistry t' one_registry ("Cell" ∷ [])
get_id-IsRegistry_example =
    get_id-IsRegistry one_table one_registry ("Cell" ∷ []) "Cell" one-IsRegistry
