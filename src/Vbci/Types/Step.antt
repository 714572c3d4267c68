-- ===== src/Vbci/Types/Step.antt =====
-- One step of `subtype` on a well-formed table, as a Boolean function of the Answers on the children.
use verona_bc.Prelude.{
  ℕ, ◌+◌, ◌-◌, ◌≤◌, ◌<◌, ◌≡◌, ◌⊎◌, Bool, true, false, ◌&&◌, ◌||◌, Option, none, some, List, [], ◌∷◌,
  ◌==◌, leb, if◌then◌else◌, get_elem?, length, refl, arith, All,
}
use verona_bc.Vbci.Types.{
  TypeTag, array, union, tuple, same_tag, ComplexType, Program, dynamic_type_id, is_complex,
  complex_type, has_tag, is_union, all_of, any_of, zip_of, subtype_complex,
}

-- What `subtype` looks at in a type. `box` has one child.
pub data View : Type 0 where
  leaf : View
  one_of : List ℕ → View
  product : List ℕ → View
  box : TypeTag → ℕ → View

abbrev pub view_of : TypeTag → List ℕ → View
view_of union cs = one_of cs
view_of tuple cs = product cs
view_of tag (c ∷ cs) = box tag c
view_of tag [] = leaf

-- A type id that the table has: dynamic, a primitive or class, or a complex type.
abbrev pub IsTypeId : Program → ℕ → Type 0
IsTypeId p a = (a ≡ dynamic_type_id) ⊎ (a < p.min_complex_type_id + length p.complex_types)

-- Any number of children for a union or a tuple, else one.
abbrev pub IsShaped : TypeTag → List ℕ → Type 0
IsShaped union cs = Unit {0}
IsShaped tuple cs = Unit {0}
IsShaped tag cs = length cs ≡ 1

-- Every complex type has only type ids of a smaller rank as its children, and one child unless it is a
-- union or a tuple; the ids end below the dynamic one.
pub record IsRanked (p : Program) (rank : ℕ → ℕ) : Type 0 where
  pub fits : p.min_complex_type_id + length p.complex_types ≤ dynamic_type_id
  pub children :
      (i : ℕ) (t : ComplexType)
      → get_elem? p.complex_types i ≡ some t
      → All (λ c. IsTypeId p c × (rank c < rank (p.min_complex_type_id + i))) t.children
  pub arity :
      (i : ℕ) (t : ComplexType) → get_elem? p.complex_types i ≡ some t → IsShaped t.tag t.children

abbrev pub all : (ℕ → Bool) → List ℕ → Bool
all f [] = true
all f (c ∷ cs) = f c && all f cs

abbrev pub any : (ℕ → Bool) → List ℕ → Bool
any f [] = false
any f (c ∷ cs) = f c || any f cs

abbrev pub zip_all : (ℕ → ℕ → Bool) → List ℕ → List ℕ → Bool
zip_all f [] [] = true
zip_all f [] (d ∷ ds) = false
zip_all f (c ∷ cs) [] = false
zip_all f (c ∷ cs) (d ∷ ds) = f c d && zip_all f cs ds

abbrev pub body : (ℕ → ℕ → Bool) → ℕ → ℕ → View → View → Bool
body le a b (one_of cs) v = all (λ c. le c b) cs
body le a b leaf (one_of ds) = any (λ d. le a d) ds
body le a b (product cs) (one_of ds) = any (λ d. le a d) ds
body le a b (box t x) (one_of ds) = any (λ d. le a d) ds
body le a b (product cs) (product ds) = zip_all le cs ds
body le a b (product cs) (box array e) = all (λ c. le c e) cs
body le a b (box t x) (box t' y) = same_tag t t' && (le x y && le y x)
body le a b _ _ = false

abbrev pub step : (ℕ → ℕ → Bool) → ℕ → ℕ → View → View → Bool
step le a b u v =
    if b == dynamic_type_id
    then true
    else if a == dynamic_type_id
    then false
    else if a == b
    then true
    else body le a b u v

pub all_of-all :
    (f : ℕ → Option Bool) (g : ℕ → Bool) (cs : List ℕ)
    → All (λ c. f c ≡ some (g c)) cs
    → all_of f cs ≡ some (all g cs)
unfolding all_of
all_of-all f g [] h = refl
all_of-all f g (c ∷ cs) h = rw (h.0) (ground (arith, all_of-all f g cs h.1))

pub any_of-any :
    (f : ℕ → Option Bool) (g : ℕ → Bool) (cs : List ℕ)
    → All (λ c. f c ≡ some (g c)) cs
    → any_of f cs ≡ some (any g cs)
unfolding any_of
any_of-any f g [] h = refl
any_of-any f g (c ∷ cs) h = rw (h.0) (ground (arith, any_of-any f g cs h.1))

-- On lists of one length.
zip_of-zip_all :
    (f : ℕ → ℕ → Option Bool) (g : ℕ → ℕ → Bool) (P : ℕ → Type 0) (Q : ℕ → Type 0) (cs ds : List ℕ)
    → ((c d : ℕ) → P c → Q d → f c d ≡ some (g c d))
    → All P cs
    → All Q ds
    → (if length cs == length ds then zip_of f cs ds else some false) ≡ some (zip_all g cs ds)
unfolding zip_of
zip_of-zip_all f g P Q [] [] h p q = refl
zip_of-zip_all f g P Q [] (d ∷ ds) h p q = ground arith
zip_of-zip_all f g P Q (c ∷ cs) [] h p q = ground arith
zip_of-zip_all f g P Q (c ∷ cs) (d ∷ ds) h p q =
    ground (arith, h c d p.0 q.0, zip_of-zip_all f g P Q cs ds h p.1 q.1)

abbrev pub view : Program → ℕ → View
view p a =
    if leb p.min_complex_type_id a
    then elim (get_elem? p.complex_types (a - p.min_complex_type_id)) [
      | none ↦ leaf
      | some t ↦ view_of t.tag t.children
    ]
    else leaf

pub is_union_low : (p : Program) (a : ℕ) → a < p.min_complex_type_id → is_union p a ≡ some false
unfolding is_union has_tag is_complex
is_union_low p a h = ground arith

pub is_union_high :
    (p : Program) (a : ℕ) (t : ComplexType)
    → p.min_complex_type_id ≤ a
    → get_elem? p.complex_types (a - p.min_complex_type_id) ≡ some t
    → is_union p a ≡ some (same_tag t.tag union)
unfolding is_union has_tag complex_type is_complex
is_union_high p a t h e = ground arith

pub is_complex_low : (p : Program) (a : ℕ) → a < p.min_complex_type_id → is_complex p a ≡ false
unfolding is_complex
is_complex_low p a h = ground arith

pub is_complex_high : (p : Program) (a : ℕ) → p.min_complex_type_id ≤ a → is_complex p a ≡ true
unfolding is_complex
is_complex_high p a h = ground arith

pub complex_type_high :
    (p : Program) (a : ℕ) (t : ComplexType)
    → p.min_complex_type_id ≤ a
    → get_elem? p.complex_types (a - p.min_complex_type_id) ≡ some t
    → complex_type p a ≡ some t
unfolding complex_type is_complex
complex_type_high p a t h e = ground arith

pub All-map :
    {P : ℕ → Type 0} {Q : ℕ → Type 0} → ((c : ℕ) → P c → Q c) → (cs : List ℕ) → All P cs → All Q cs
All-map h [] q = tt
All-map h (c ∷ cs) q = (h c q.0, All-map h cs q.1)

module _ (f : ℕ → ℕ → Option Bool) (g : ℕ → ℕ → Bool) (P : ℕ → Type 0) (Q : ℕ → Type 0) where
  abbrev pub Answers : ℕ → ℕ → Type 0
  Answers x y = f x y ≡ some (g x y)

  -- On two complex types that are no unions.
  pub complex_body :
      (a b : ℕ) (tag : TypeTag) (cs : List ℕ) (tag' : TypeTag) (ds : List ℕ)
      → same_tag tag union ≡ false
      → same_tag tag' union ≡ false
      → IsShaped tag cs
      → IsShaped tag' ds
      → ((c d : ℕ) → P c → Q d → Answers c d × Answers d c)
      → All P cs
      → All Q ds
      → subtype_complex f
          (record { tag = tag; children = cs })
          (record { tag = tag'; children = ds })
        ≡ some (body g a b (view_of tag cs) (view_of tag' ds))
  unfolding subtype_complex
  complex_body a b tuple cs tuple ds n m k l h hc hd =
      zip_of-zip_all f g P Q cs ds (λ c d x y. (h c d x y).0) hc hd
  complex_body a b tuple cs array (d ∷ []) n m k l h hc hd =
      all_of-all (λ c. f c d) (λ c. g c d) cs (All-map (λ c x. (h c d x hd.0).0) cs hc)
  complex_body a b tag (c ∷ []) tag' (d ∷ []) n m k l h hc hd = ground (arith, h c d hc.0 hd.0)
  complex_body a b tag cs tag' ds n m k l h hc hd = ground arith
