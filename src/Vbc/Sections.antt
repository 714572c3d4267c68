-- ===== src/Vbc/Sections.antt =====
-- The sections of a VBC file: the emitter's side (virc/vbc/emitter.cc) and the loader's
-- (vbci/program.cc). A string is its bytes; a class's and a function's fields are those that the
-- sections carry.
pub mod Decodes
pub mod RoundTrip
pub mod Tables
use verona_bc.Prelude.{
  ℕ, zero, suc, ◌+◌, ◌%◌, ◌^◌, Bool, true, false, List, [], ◌∷◌, ◌++◌, Option, none, some, ltb,
  ◌==◌, if◌then◌else◌, length, get_elem?,
}
use verona_bc.Vbc.Reader.{Parsed, parsed, refused, fault, Reader, pure, refuse, ◌>>=◌}
use verona_bc.Vbc.Leb.{put_uleb, uleb}

-- `b << std::string`.
pub put_string : List ℕ → List ℕ
put_string s = put_uleb (length s) ++ s

unfoldable pub put_each {ℓ} : {A : Type ℓ} → (A → List ℕ) → List A → List ℕ
put_each put [] = []
put_each put (x ∷ xs) = put x ++ put_each put xs

-- A count and then every element.
unfoldable pub put_counted {ℓ} : {A : Type ℓ} → (A → List ℕ) → List A → List ℕ
unfolding put_each
put_counted put xs = put_uleb (length xs) ++ put_each put xs

-- `for (i < n)` around a read.
pub read_each : {A : Type 0} → ℕ → Reader A → Reader (List A)
read_each zero read = pure []
read_each (suc n) read = do x ← read; xs ← read_each n read; pure (x ∷ xs)

pub read_counted : {A : Type 0} → Reader A → Reader (List A)
unfolding read_each
read_counted read = do n ← uleb; read_each n read

-- `std::string(from.begin() + pc, from.begin() + pc + size)`; a byte past the end is undefined.
pub byte : Reader ℕ
byte pc from = elim (get_elem? from pc) [ none ↦ fault | some b ↦ parsed b (pc + 1) ]

pub str : Reader (List ℕ)
unfolding byte read_each
str = do size ← uleb; read_each size byte

pub string_table : Reader (List (List ℕ))
string_table = read_counted str

pub put_string_table : List (List ℕ) → List ℕ
put_string_table = put_counted put_string

-- A `uint32_t` that a `uint64_t` is assigned to.
pub uleb32 : Reader ℕ
uleb32 = do v ← uleb; pure (v % 2 ^ 32)

pub record Function : Type 0 where
  pub registers : ℕ
  pub debug_info : ℕ
  pub param_types : List ℕ
  pub return_type : ℕ
  pub var_types : List ℕ
  pub labels : List ℕ

pub put_function : Function → List ℕ
put_function f =
    put_uleb f.registers
    ++ (put_uleb f.debug_info
        ++ (put_counted put_uleb f.param_types
            ++ (put_uleb f.return_type
                ++ (put_counted put_uleb f.var_types ++ put_counted put_uleb f.labels))))

-- A function with no label is refused before any label is read.
pub read_labels : ℕ → Reader (List ℕ)
read_labels zero = refuse
read_labels (suc n) = read_each (suc n) uleb

pub parse_function : Reader Function
unfolding read_labels
parse_function = do
  registers ← uleb
  debug_info ← uleb
  param_types ← read_counted uleb32
  return_type ← uleb32
  var_types ← read_counted uleb32
  n ← uleb
  labels ← read_labels n
  pure (record {
    registers = registers;
    debug_info = debug_info;
    param_types = param_types;
    return_type = return_type;
    var_types = var_types;
    labels = labels;
  })

pub put_pair : ℕ × ℕ → List ℕ
put_pair (k, v) = put_uleb k ++ put_uleb v

-- `std::unordered_map::emplace`: the first entry of a key stays.
pub emplace : ℕ → ℕ → List (ℕ × ℕ) → List (ℕ × ℕ)
emplace k v [] = (k, v) ∷ []
emplace k v ((k', v') ∷ m) = if k == k' then (k', v') ∷ m else (k', v') ∷ emplace k v m

pub put_methods : List (ℕ × ℕ) → List ℕ
unfolding put_pair
put_methods = put_counted put_pair

parse_methods_loop : ℕ → List (ℕ × ℕ) → Reader (List (ℕ × ℕ))
parse_methods_loop zero methods = pure methods
parse_methods_loop (suc n) methods = do
  method_id ← uleb
  func_id ← uleb
  parse_methods_loop n (emplace method_id func_id methods)

pub parse_methods : Reader (List (ℕ × ℕ))
unfolding parse_methods_loop
parse_methods = do n ← uleb; parse_methods_loop n []

-- What `parse_fields` fills in: the index of each field id, and the type id of each index.
pub record Fields : Type 0 where
  pub field_map : List (ℕ × ℕ)
  pub type_ids : List ℕ

pub put_fields : List (ℕ × ℕ) → List ℕ
unfolding put_pair
put_fields = put_counted put_pair

parse_fields_loop : ℕ → ℕ → Fields → Reader Fields
parse_fields_loop zero i fields = pure fields
parse_fields_loop (suc n) i fields = do
  field_id ← uleb
  type_id ← uleb32
  parse_fields_loop n (suc i) (record {
    field_map = emplace field_id i fields.field_map;
    type_ids = fields.type_ids ++ (type_id ∷ []);
  })

pub parse_fields : Reader Fields
unfolding parse_fields_loop
parse_fields = do n ← uleb; parse_fields_loop n 0 (record { field_map = []; type_ids = [] })

-- `std::unordered_map::find`.
pub find : ℕ → List (ℕ × ℕ) → Option ℕ
find k [] = none
find k ((k', v) ∷ m) = if k == k' then some v else find k m
