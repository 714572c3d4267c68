-- ===== src/Vbc/Sections/Tables.antt =====
-- Method and field tables: what `emplace` makes of the entries read, in their order.
use mathlib.Core.List.{append_assoc, append-nil}
use verona_bc.Prelude.{
  ℕ, suc, ◌+◌, ◌^◌, ◌<◌, ◌≡◌, refl, sym, ◌∙◌, List, [], ◌∷◌, ◌++◌, Option, none, some, ◌==◌,
  if◌then◌else◌, arith, length, drop, All, map,
}
use verona_bc.Vbc.Reader.{parsed}
use verona_bc.Vbc.Leb.{put_uleb}
use verona_bc.Vbc.Sections.{
  emplace, find, put_pair, put_each, put_counted, put_methods, parse_methods, parse_methods_loop,
  Fields, put_fields, parse_fields, parse_fields_loop,
}
use verona_bc.Vbc.Sections.Decodes.{
  Decodes, Decodes-bind, Decodes-uleb, Decodes-uleb32, Decodes-pure,
}

abbrev pub FitsPair : ℕ × ℕ → Type 0
FitsPair e = (e.0 < 2 ^ 64) × (e.1 < 2 ^ 64)

abbrev emplace_all : List (ℕ × ℕ) → List (ℕ × ℕ) → List (ℕ × ℕ)
emplace_all acc [] = acc
emplace_all acc ((k, v) ∷ ms) = emplace_all (emplace k v acc) ms

abbrev or_else : Option ℕ → Option ℕ → Option ℕ
or_else none o = o
or_else (some v) o = some v

find-emplace :
    (j k v : ℕ) (m : List (ℕ × ℕ))
    → find j (emplace k v m) ≡ or_else (find j m) (if j == k then some v else none)
unfolding find emplace
find-emplace j k v [] = refl
find-emplace j k v ((k', v') ∷ m) = ground (arith, find-emplace j k v m)

find-emplace_all :
    (j : ℕ) (acc ms : List (ℕ × ℕ)) → find j (emplace_all acc ms) ≡ or_else (find j acc) (find j ms)
unfolding find
find-emplace_all j acc [] = ground arith
find-emplace_all j acc ((k, v) ∷ ms) =
    find-emplace_all j (emplace k v acc) ms ∙ ground (arith, find-emplace j k v acc)

Decodes-methods_loop :
    (acc ms : List (ℕ × ℕ))
    → All FitsPair ms
    → Decodes (parse_methods_loop (length ms) acc) (put_each put_pair ms) (emplace_all acc ms)
unfolding parse_methods_loop put_each put_pair
Decodes-methods_loop acc [] ok = Decodes-pure acc
Decodes-methods_loop acc ((k, v) ∷ ms) ok =
    rw (append_assoc (put_uleb k) (put_uleb v) (put_each put_pair ms)) (
      Decodes-bind _ _ _ _ _ _ (Decodes-uleb k ok.0.0) (
        Decodes-bind _ _ _ _ _ _ (Decodes-uleb v ok.0.1)
          (Decodes-methods_loop (emplace k v acc) ms ok.1)))

-- Wherever the emitter wrote a method table, its ids and its count below 2^64, `parse_methods` ends
-- just behind it, and the map that it builds answers every method id as the first entry for that id in
-- the emitted list does.
pub parse_methods-put_methods :
    (ms : List (ℕ × ℕ)) (pc : ℕ) (from rest : List ℕ)
    → length ms < 2 ^ 64
    → All FitsPair ms
    → drop pc from ≡ put_methods ms ++ rest
    → (m : List (ℕ × ℕ)) × (parse_methods pc from ≡ parsed m (pc + length (put_methods ms)))
      × ((k : ℕ) → find k m ≡ find k ms)
unfolding parse_methods put_methods put_counted
parse_methods-put_methods ms pc from rest n ok d =
    let whole : Decodes parse_methods (put_methods ms) (emplace_all [] ms) =
      Decodes-bind _ _ _ _ _ _ (Decodes-uleb (length ms) n) (Decodes-methods_loop [] ms ok) in
    (emplace_all [] ms, whole pc from rest d, λ k. find-emplace_all k [] ms ∙ unfold find in refl)

-- The index of the first entry for `k`, counted from `i`.
abbrev pub first_index : ℕ → ℕ → List (ℕ × ℕ) → Option ℕ
first_index k i [] = none
first_index k i ((k', t) ∷ fs) = if k == k' then some i else first_index k (suc i) fs

abbrev add_fields : ℕ → Fields → List (ℕ × ℕ) → Fields
add_fields i fields [] = fields
add_fields i fields ((k, t) ∷ fs) =
    add_fields (suc i)
      (record { field_map = emplace k i fields.field_map; type_ids = fields.type_ids ++ (t ∷ []) })
      fs

abbrev pub FitsField : ℕ × ℕ → Type 0
FitsField e = (e.0 < 2 ^ 64) × (e.1 < 2 ^ 32)

Decodes-fields_loop :
    (i : ℕ) (fields : Fields) (fs : List (ℕ × ℕ))
    → All FitsField fs
    → Decodes
        (parse_fields_loop (length fs) i fields)
        (put_each put_pair fs)
        (add_fields i fields fs)
unfolding parse_fields_loop put_each put_pair
Decodes-fields_loop i fields [] ok = Decodes-pure fields
Decodes-fields_loop i fields ((k, t) ∷ fs) ok =
    rw (append_assoc (put_uleb k) (put_uleb t) (put_each put_pair fs)) (
      Decodes-bind _ _ _ _ _ _ (Decodes-uleb k ok.0.0) (
        Decodes-bind _ _ _ _ _ _ (Decodes-uleb32 t ok.0.1) (Decodes-fields_loop (suc i) _ fs ok.1)))

add_fields-type_ids :
    (i : ℕ) (fields : Fields) (fs : List (ℕ × ℕ))
    → (add_fields i fields fs).type_ids ≡ fields.type_ids ++ map (λ e. e.1) fs
add_fields-type_ids i fields [] = sym (append-nil fields.type_ids)
add_fields-type_ids i fields ((k, t) ∷ fs) =
    add_fields-type_ids (suc i) _ fs ∙ append_assoc fields.type_ids (t ∷ []) (map (λ e. e.1) fs)

add_fields-field_map :
    (j i : ℕ) (fields : Fields) (fs : List (ℕ × ℕ))
    → find j (add_fields i fields fs).field_map
      ≡ or_else (find j fields.field_map) (first_index j i fs)
add_fields-field_map j i fields [] = ground arith
add_fields-field_map j i fields ((k, t) ∷ fs) =
    add_fields-field_map j (suc i) _ fs ∙ ground (arith, find-emplace j k i fields.field_map)

-- Wherever the emitter wrote a field table, its field ids and its count below 2^64 and its type ids
-- below 2^32, `parse_fields` ends just behind it with the type ids in order, and its map answers every
-- field id with the index of the first entry for it.
pub parse_fields-put_fields :
    (fs : List (ℕ × ℕ)) (pc : ℕ) (from rest : List ℕ)
    → length fs < 2 ^ 64
    → All FitsField fs
    → drop pc from ≡ put_fields fs ++ rest
    → (r : Fields) × (parse_fields pc from ≡ parsed r (pc + length (put_fields fs)))
      × (r.type_ids ≡ map (λ e. e.1) fs)
      × ((k : ℕ) → find k r.field_map ≡ first_index k 0 fs)
unfolding parse_fields put_fields put_counted
parse_fields-put_fields fs pc from rest n ok d =
    let none_yet : Fields = record { field_map = []; type_ids = [] } in
    let whole : Decodes parse_fields (put_fields fs) (add_fields 0 none_yet fs) =
      Decodes-bind _ _ _ _ _ _ (Decodes-uleb (length fs) n)
        (Decodes-fields_loop 0 none_yet fs ok) in
    (
      add_fields 0 none_yet fs,
      whole pc from rest d,
      add_fields-type_ids 0 none_yet fs,
      λ k. add_fields-field_map k 0 none_yet fs ∙ unfold find in refl,
    )
