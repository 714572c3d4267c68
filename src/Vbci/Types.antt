-- ===== src/Vbci/Types.antt =====
-- The types of a loaded program: `ComplexType` of vbci/classes.h, and the predicates, projections and
-- the subtype test of vbci/program.cc. `none` is a throw: `Value::error(Error::BadType)`, or the
-- std::out_of_range of a vector.
pub mod Step
pub mod Entry
pub mod Exact
pub mod Answers
pub mod Preorder
pub mod Unloaded
pub mod Layout
pub mod Tests
use verona_bc.Prelude.{
  ℕ, zero, suc, ◌-◌, ◌^◌, Bool, true, false, ◌&&◌, ◌||◌, Option, none, some, List, [], ◌∷◌, ◌==◌,
  ltb, leb, if◌then◌else◌, get_elem?, length,
}
use verona_bc.Prelude.Fallible.{◌>>=◌}

pub data TypeTag : Type 0 where
  array cown ref union tuple : TypeTag

pub record ComplexType : Type 0 where
  pub tag : TypeTag
  pub children : List ℕ

-- The part of `Program` that the types are in. `ref_map` has the type of the references to a type.
pub record Program : Type 0 where
  pub min_complex_type_id : ℕ
  pub complex_types : List ComplexType
  pub ref_map : List (ℕ × ℕ)
  pub typeid_ref_dyn : ℕ

-- `uint32_t(-1)`.
abbrev pub dynamic_type_id : ℕ
dynamic_type_id = 2 ^ 32 - 1

abbrev pub same_tag : TypeTag → TypeTag → Bool
same_tag array array = true
same_tag cown cown = true
same_tag ref ref = true
same_tag union union = true
same_tag tuple tuple = true
same_tag _ _ = false

pub is_complex : Program → ℕ → Bool
is_complex p type_id = leb p.min_complex_type_id type_id

pub complex_type : Program → ℕ → Option ComplexType
unfolding is_complex
complex_type p type_id =
    if is_complex p type_id
    then get_elem? p.complex_types (type_id - p.min_complex_type_id)
    else none

-- `is_complex(type_id) && (complex_type(type_id).tag == tag)`.
pub has_tag : Program → TypeTag → ℕ → Option Bool
unfolding complex_type
has_tag p tag type_id =
    if is_complex p type_id
    then (do t ← complex_type p type_id; some (same_tag t.tag tag))
    else some false

pub is_array : Program → ℕ → Option Bool
unfolding complex_type
is_array p type_id =
    if is_complex p type_id
    then (do t ← complex_type p type_id; some (same_tag t.tag array || same_tag t.tag tuple))
    else some false

pub is_tuple : Program → ℕ → Option Bool
unfolding has_tag
is_tuple p type_id = has_tag p tuple type_id

pub is_ref : Program → ℕ → Option Bool
unfolding has_tag
is_ref p type_id = has_tag p ref type_id

pub is_cown : Program → ℕ → Option Bool
unfolding has_tag
is_cown p type_id = has_tag p cown type_id

pub is_union : Program → ℕ → Option Bool
unfolding has_tag
is_union p type_id = has_tag p union type_id

-- The only child of a type of that tag.
pub untag : Program → TypeTag → ℕ → Option ℕ
unfolding complex_type
untag p tag type_id = do
  t ← complex_type p type_id
  if same_tag t.tag tag then get_elem? t.children 0 else none

pub unarray : Program → ℕ → Option ℕ
unfolding complex_type
unarray p type_id = do
  t ← complex_type p type_id
  if same_tag t.tag tuple
      then some dynamic_type_id
      else if same_tag t.tag array
      then get_elem? t.children 0
      else none

pub uncown : Program → ℕ → Option ℕ
unfolding untag
uncown p type_id = untag p cown type_id

pub unref : Program → ℕ → Option ℕ
unfolding untag
unref p type_id = untag p ref type_id

abbrev pub find : ℕ → List (ℕ × ℕ) → Option ℕ
find k [] = none
find k ((j, v) ∷ m) = if j == k then some v else find k m

pub ref_of : Program → ℕ → ℕ
ref_of p type_id = elim (find type_id p.ref_map) [ none ↦ p.typeid_ref_dyn | some r ↦ r ]

-- `for (auto c : children) { if (!f(c)) return false; } return true;`.
pub all_of : (ℕ → Option Bool) → List ℕ → Option Bool
all_of f [] = some true
all_of f (c ∷ cs) = do b ← f c; if b then all_of f cs else some false

-- `for (auto c : children) { if (f(c)) return true; } return false;`.
pub any_of : (ℕ → Option Bool) → List ℕ → Option Bool
any_of f [] = some false
any_of f (c ∷ cs) = do b ← f c; if b then some true else any_of f cs

-- `for (i < sub.size()) { if (!f(sub[i], super[i])) return false; } return true;`.
pub zip_of : (ℕ → ℕ → Option Bool) → List ℕ → List ℕ → Option Bool
zip_of f [] ds = some true
zip_of f (c ∷ cs) [] = none
zip_of f (c ∷ cs) (d ∷ ds) = do b ← f c d; if b then zip_of f cs ds else some false

-- The rules for two complex types that are no unions.
pub subtype_complex : (ℕ → ℕ → Option Bool) → ComplexType → ComplexType → Option Bool
unfolding all_of zip_of
subtype_complex f sub super =
    if same_tag sub.tag tuple && same_tag super.tag tuple
    then if length sub.children == length super.children
      then zip_of f sub.children super.children
      else some false
    else if same_tag sub.tag tuple && same_tag super.tag array
    then (do super_elem ← get_elem? super.children 0; all_of (λ c. f c super_elem) sub.children)
    else if same_tag sub.tag super.tag
    then (do
      sub_elem ← get_elem? sub.children 0
      super_elem ← get_elem? super.children 0
      b ← f sub_elem super_elem
      if b then f super_elem sub_elem else some false)
    else some false

-- The rules for two different types that are not dynamic.
pub subtype_distinct : (ℕ → ℕ → Option Bool) → Program → ℕ → ℕ → Option Bool
subtype_distinct f p sub super = do
  sub_union ← is_union p sub
  if sub_union then (do t ← complex_type p sub; all_of (λ c. f c super) t.children) else (do
    super_union ← is_union p super
    if super_union
        then (do t ← complex_type p super; any_of (λ c. f sub c) t.children)
        else if is_complex p sub && is_complex p super
        then (do s ← complex_type p sub; t ← complex_type p super; subtype_complex f s t)
        else some false)

-- `subtype` calls itself on children of `sub` or `super`; fuel above the sum of their ranks is enough.
pub subtype : ℕ → Program → ℕ → ℕ → Option Bool
subtype zero p sub super = none
subtype (suc fuel) p sub super =
    if super == dynamic_type_id
    then some true
    else if sub == dynamic_type_id
    then some false
    else if sub == super
    then some true
    else subtype_distinct (subtype fuel p) p sub super
