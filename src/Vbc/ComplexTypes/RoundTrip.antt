-- ===== src/Vbc/ComplexTypes/RoundTrip.antt =====
-- The loader reads back the table of complex types, and finds the reference types by their content.
use verona_bc.Prelude.{
  ℕ, suc, ◌^◌, ◌<◌, List, [], ◌∷◌, Option, none, some, ◌==◌, if◌then◌else◌, length, All,
}
use verona_bc.Vbc.Reader.{◌>>=◌}
use verona_bc.Vbc.Sections.Decodes.{Decodes}
use verona_bc.Vbc.ComplexTypes.{note_ref}
use verona_bc.Vbci.Types.{TypeTag, ref, ComplexType}
use verona_bc.Vbci.Types.Step.{IsShaped}

-- One child unless it is a union or a tuple; ids fit a uint32_t and counts a size_t.
pub record IsWritable (t : ComplexType) : Type 0 where
  pub shaped : IsShaped t.tag t.children
  pub count_fits : length t.children < 2 ^ 64
  pub ids_fit : All (λ c. c < 2 ^ 32) t.children

-- `ref_map` after the loop.
note_refs : List ComplexType → ℕ → List (ℕ × ℕ) → List (ℕ × ℕ)
note_refs [] type_id refs = refs
note_refs (t ∷ ts) type_id refs = note_refs ts (suc type_id) (note_ref (some t) type_id refs)

-- The type id of the last reference to `j` among types numbered from `type_id` on.
abbrev pub reference_to : ℕ → TypeTag → List ℕ → ℕ → Option ℕ
reference_to j ref (c ∷ cs) type_id = if c == j then some type_id else none
reference_to j tag cs type_id = none

abbrev pub or_else : Option ℕ → Option ℕ → Option ℕ
or_else none o = o
or_else (some v) o = some v

abbrev pub last_reference : ℕ → List ComplexType → ℕ → Option ℕ
last_reference j [] type_id = none
last_reference j (t ∷ ts) type_id =
    or_else (last_reference j ts (suc type_id)) (reference_to j t.tag t.children type_id)
