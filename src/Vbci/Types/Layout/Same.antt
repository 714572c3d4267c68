-- ===== src/Vbci/Types/Layout/Same.antt =====
-- `==` on layouts is equality.
use verona_bc.Prelude.{◌≡◌, true, List, [], ◌∷◌, get_or, refl, sym, ap, ap₂, ◌∙◌, arith}
use verona_bc.Vbci.Types.Layout.{
  ValueType, none_type, bool, i8, i16, i32, i64, u8, u16, u32, u64, ilong, ulong, isize, usize, f32,
  f64, ptr, object_type, array_type, cown_type, register_ref, field_ref, array_ref, cown_ref,
  function_type, error_type, dyn, invalid, code, FfiType, ffi_void, ffi_uint8, ffi_sint8,
  ffi_uint16, ffi_sint16, ffi_uint32, ffi_sint32, ffi_uint64, ffi_sint64, ffi_slong, ffi_ulong,
  ffi_float, ffi_double, ffi_pointer, ffi_value, ffi_code, Rep, same_rep,
}

value_types : List ValueType
value_types =
    none_type ∷ bool ∷ i8 ∷ i16 ∷ i32 ∷ i64 ∷ u8 ∷ u16 ∷ u32 ∷ u64 ∷ ilong ∷ ulong ∷ isize ∷ usize
    ∷ f32 ∷ f64 ∷ ptr ∷ object_type ∷ array_type ∷ cown_type ∷ register_ref ∷ field_ref ∷ array_ref
    ∷ cown_ref ∷ function_type ∷ error_type ∷ dyn ∷ invalid ∷ []

ffi_types : List FfiType
ffi_types =
    ffi_void ∷ ffi_uint8 ∷ ffi_sint8 ∷ ffi_uint16 ∷ ffi_sint16 ∷ ffi_uint32 ∷ ffi_sint32
    ∷ ffi_uint64 ∷ ffi_sint64 ∷ ffi_slong ∷ ffi_ulong ∷ ffi_float ∷ ffi_double ∷ ffi_pointer
    ∷ ffi_value ∷ []

value_type_of-code : (v : ValueType) → get_or value_types (code v) invalid ≡ v
unfolding value_types
value_type_of-code none_type = refl
value_type_of-code v = refl

ffi_type_of-code : (v : FfiType) → get_or ffi_types (ffi_code v) ffi_void ≡ v
unfolding ffi_types
ffi_type_of-code ffi_void = refl
ffi_type_of-code v = refl

pub same_rep-eq : (a b : Rep) → same_rep a b ≡ true → a ≡ b
same_rep-eq (v, f) (v', f') h =
    let ev : code v ≡ code v' = ground arith in
    let ef : ffi_code f ≡ ffi_code f' = ground arith in
    ap₂ (λ x y. (x, y))
      (sym (value_type_of-code v)
        ∙ ap (λ n. get_or value_types n invalid) ev
        ∙ value_type_of-code v')
      (sym (ffi_type_of-code f) ∙ ap (λ n. get_or ffi_types n ffi_void) ef ∙ ffi_type_of-code f')
