-- ===== src/Vbci/Types/Layout.antt =====
-- How a value of a type is stored: `Program::layout_type_id` and `layout_union_type` of vbci/program.cc,
-- `ValueType` of vbci/value_type.h. `none` is the throw of `Value::error(Error::BadType)`.
pub mod Same
pub mod Union
pub mod Total
pub mod Tests
use verona_bc.Prelude.{
  ℕ, zero, suc, ◌+◌, ◌-◌, Bool, true, false, ◌&&◌, Option, none, some, List, [], ◌∷◌, ◌==◌, ltb,
  if◌then◌else◌, get_elem?, length,
}
use verona_bc.Prelude.Fallible.{◌>>=◌}
use verona_bc.Vbci.Types.{TypeTag, array, cown, ref, union, tuple, Program, dynamic_type_id}

pub data ValueType : Type 0 where
  none_type bool i8 i16 i32 i64 u8 u16 u32 u64 ilong ulong isize usize f32 f64 ptr : ValueType
  object_type array_type cown_type register_ref field_ref array_ref cown_ref : ValueType
  function_type error_type dyn invalid : ValueType

-- `+tag`, the value of the enumeration.
abbrev pub code : ValueType → ℕ
code none_type = 0
code bool = 1
code i8 = 2
code i16 = 3
code i32 = 4
code i64 = 5
code u8 = 6
code u16 = 7
code u32 = 8
code u64 = 9
code ilong = 10
code ulong = 11
code isize = 12
code usize = 13
code f32 = 14
code f64 = 15
code ptr = 16
code object_type = 17
code array_type = 18
code cown_type = 19
code register_ref = 20
code field_ref = 21
code array_ref = 22
code cown_ref = 23
code function_type = 24
code error_type = 25
code dyn = 26
code invalid = 27

-- The descriptors of libffi that are pointed to, and that of `Value` itself.
pub data FfiType : Type 0 where
  ffi_void ffi_uint8 ffi_sint8 ffi_uint16 ffi_sint16 ffi_uint32 ffi_sint32 : FfiType
  ffi_uint64 ffi_sint64 ffi_slong ffi_ulong ffi_float ffi_double ffi_pointer ffi_value : FfiType

abbrev pub ffi_code : FfiType → ℕ
ffi_code ffi_void = 0
ffi_code ffi_uint8 = 1
ffi_code ffi_sint8 = 2
ffi_code ffi_uint16 = 3
ffi_code ffi_sint16 = 4
ffi_code ffi_uint32 = 5
ffi_code ffi_sint32 = 6
ffi_code ffi_uint64 = 7
ffi_code ffi_sint64 = 8
ffi_code ffi_slong = 9
ffi_code ffi_ulong = 10
ffi_code ffi_float = 11
ffi_code ffi_double = 12
ffi_code ffi_pointer = 13
ffi_code ffi_value = 14

abbrev pub Rep : Type 0
Rep = ValueType × FfiType

abbrev pub same_rep : Rep → Rep → Bool
same_rep a b = code a.0 == code b.0 && ffi_code a.1 == ffi_code b.1

abbrev pub num_primitive_classes : ℕ
num_primitive_classes = 17

abbrev pub dynamic_rep : Rep
dynamic_rep = (dyn, ffi_value)

-- `switch (PrimitiveType(type_id))`; `word4` tells that a `size_t` has four bytes.
abbrev pub primitive_rep : Bool → ℕ → Rep
primitive_rep word4 n =
    if n == 0
    then (none_type, ffi_void)
    else if n == 1
    then (bool, ffi_uint8)
    else if n == 2
    then (i8, ffi_sint8)
    else if n == 3
    then (i16, ffi_sint16)
    else if n == 4
    then (i32, ffi_sint32)
    else if n == 5
    then (i64, ffi_sint64)
    else if n == 6
    then (u8, ffi_uint8)
    else if n == 7
    then (u16, ffi_uint16)
    else if n == 8
    then (u32, ffi_uint32)
    else if n == 9
    then (u64, ffi_uint64)
    else if n == 10
    then (ilong, ffi_slong)
    else if n == 11
    then (ulong, ffi_ulong)
    else if n == 12
    then (isize, (if word4 then ffi_sint32 else ffi_sint64))
    else if n == 13
    then (usize, (if word4 then ffi_uint32 else ffi_uint64))
    else if n == 14
    then (f32, ffi_float)
    else if n == 15
    then (f64, ffi_double)
    else if n == 16
    then (ptr, ffi_pointer)
    else (invalid, ffi_void)

-- `for (i = 1; ...) if (rep != layout_type_id(children.at(i))) { ok = false; break; }`.
all_same : (ℕ → Option Rep) → Rep → List ℕ → Option Bool
all_same f rep [] = some true
all_same f rep (c ∷ cs) = do r ← f c; if same_rep rep r then all_same f rep cs else some false

-- The recursive call is an argument.
pub layout_union_type : (ℕ → Option Rep) → List ℕ → Option Rep
unfolding all_same
layout_union_type f [] = none
layout_union_type f (c ∷ cs) = do
  rep ← f c
  ok ← all_same f rep cs
  some (if ok then rep else dynamic_rep)

pub layout_complex_type : (ℕ → Option Rep) → TypeTag → List ℕ → Option Rep
layout_complex_type f array cs = some (array_type, ffi_pointer)
layout_complex_type f cown cs = some (cown_type, ffi_pointer)
layout_complex_type f ref cs = some dynamic_rep
layout_complex_type f union cs = layout_union_type f cs
layout_complex_type f tuple cs = some (array_type, ffi_pointer)

-- The call for a union asks for its children: fuel above the rank of the type is enough.
pub layout_type_id : ℕ → Bool → Program → ℕ → Option Rep
unfolding layout_complex_type
layout_type_id zero word4 p type_id = none
layout_type_id (suc fuel) word4 p type_id =
    if type_id == dynamic_type_id
    then some dynamic_rep
    else if ltb type_id num_primitive_classes
    then some (primitive_rep word4 type_id)
    else if ltb type_id p.min_complex_type_id
    then some (object_type, ffi_pointer)
    else if ltb type_id (p.min_complex_type_id + length p.complex_types)
    then (do
      c ← get_elem? p.complex_types (type_id - p.min_complex_type_id)
      layout_complex_type (layout_type_id fuel word4 p) c.tag c.children)
    else some (invalid, ffi_void)
