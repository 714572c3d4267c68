-- ===== src/Vbc/ComplexTypes.antt =====
-- The section of complex types: `TypeInfo` as virc/vbc/emitter.cc writes it, and
-- `Program::parse_complex_type` of vbci/program.cc with the loop around it.
pub mod RoundTrip
use verona_bc.Prelude.{
  ℕ, zero, suc, ◌+◌, ◌%◌, ◌^◌, Bool, true, false, List, [], ◌∷◌, ◌++◌, Option, none, some, ◌==◌,
  if◌then◌else◌,
}
use verona_bc.Vbc.Reader.{Parsed, parsed, refused, fault, Reader, pure, ◌>>=◌}
use verona_bc.Vbc.Leb.{put_uleb, uleb}
use verona_bc.Vbc.Sections.{put_counted, read_counted, uleb32}
use verona_bc.Vbci.Types.{TypeTag, array, cown, ref, union, tuple, ComplexType}

pub tag_code : TypeTag → ℕ
tag_code array = 0
tag_code cown = 1
tag_code ref = 2
tag_code union = 3
tag_code tuple = 4

-- The elements of a type that is no union or tuple are one.
put_elements : TypeTag → List ℕ → List ℕ
put_elements union es = put_counted put_uleb es
put_elements tuple es = put_counted put_uleb es
put_elements tag (e ∷ es) = put_uleb e
put_elements tag [] = []

pub put_complex_type : ComplexType → List ℕ
unfolding put_elements tag_code
put_complex_type t = put_uleb (tag_code t.tag) ++ put_elements t.tag t.children

-- `TypeTag(n)`, a cast to a byte; `none` is a byte that is no tag.
pub tag_of : ℕ → Option TypeTag
tag_of n =
    if n % 256 == 0
    then some array
    else if n % 256 == 1
    then some cown
    else if n % 256 == 2
    then some ref
    else if n % 256 == 3
    then some union
    else if n % 256 == 4
    then some tuple
    else none

read_children : TypeTag → Reader (List ℕ)
read_children union = read_counted uleb32
read_children tuple = read_counted uleb32
read_children tag = do c ← uleb32; pure (c ∷ [])

-- `none` is an entry that the `switch` has no case for: it stays without children.
pub parse_complex_type : Reader (Option ComplexType)
unfolding read_children tag_of
parse_complex_type = do
  n ← uleb
  elim (tag_of n) [
    | none ↦ pure none
    | some tag ↦ (do cs ← read_children tag; pure (some (record { tag = tag; children = cs })))
  ]

-- `ref_map[child] = type_id` where the entry is a reference: the latest entry of a child counts.
note_child : TypeTag → List ℕ → ℕ → List (ℕ × ℕ) → List (ℕ × ℕ)
note_child ref (c ∷ cs) type_id refs = (c, type_id) ∷ refs
note_child tag cs type_id refs = refs

note_ref : Option ComplexType → ℕ → List (ℕ × ℕ) → List (ℕ × ℕ)
unfolding note_child
note_ref none type_id refs = refs
note_ref (some t) type_id refs = note_child t.tag t.children type_id refs

-- `for (auto& t : complex_types) parse_complex_type(t, type_id++, pc)`.
parse_complex_types_loop : ℕ → ℕ → List (ℕ × ℕ) → Reader (List (Option ComplexType) × List (ℕ × ℕ))
parse_complex_types_loop zero type_id refs = pure ([], refs)
parse_complex_types_loop (suc n) type_id refs = do
  t ← parse_complex_type
  rest ← parse_complex_types_loop n (suc type_id) (note_ref t type_id refs)
  pure (t ∷ rest.0, rest.1)

pub put_complex_types : List ComplexType → List ℕ
put_complex_types = put_counted put_complex_type

-- The argument is `min_complex_type_id`.
pub parse_complex_types : ℕ → Reader (List (Option ComplexType) × List (ℕ × ℕ))
unfolding parse_complex_types_loop
parse_complex_types min = do n ← uleb; parse_complex_types_loop n min []
