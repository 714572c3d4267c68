-- ===== src/Liveness/Body/Statements.antt =====
-- The statements of the IR as the liveness pass of virc/passes/liveness.cc reads them: which registers each one
-- uses, kills and defines, in the order in which the traversal meets them.
use verona_bc.Prelude.{ℕ, List, [], ◌∷◌, ◌++◌, map}

-- A register by its id, at a node of the tree.
pub record Place : Type 0 where
  pub register : ℕ
  pub at_node : ℕ

pub data Access : Type 0 where
  used : Place → Access
  killed : Place → Access
  defined : Place → Access
  referenced : Place → Place → Access

-- An argument of a call, copied or moved.
pub data Argument : Type 0 where
  copied : Place → Argument
  moved : Place → Argument

-- The statements that the pass tells apart.
pub data Kind : Type 0 where
  move : Kind
  drop : Kind
  freeze : Kind
  heap_array : Kind
  add : Kind
  sub : Kind
  mul : Kind
  div : Kind
  modulo : Kind
  pow : Kind
  and_op : Kind
  or_op : Kind
  xor : Kind
  shl : Kind
  shr : Kind
  eq : Kind
  ne : Kind
  lt : Kind
  le : Kind
  gt : Kind
  ge : Kind
  min : Kind
  max : Kind
  log_base : Kind
  atan_two : Kind
  convert : Kind
  copy : Kind
  array_ref : Kind
  load : Kind
  store : Kind
  lookup : Kind
  neg : Kind
  not_op : Kind
  abs : Kind
  ceil : Kind
  floor : Kind
  exp : Kind
  log : Kind
  sqrt : Kind
  cbrt : Kind
  is_inf : Kind
  is_nan : Kind
  sin : Kind
  cos : Kind
  tan : Kind
  asin : Kind
  acos : Kind
  atan : Kind
  sinh : Kind
  cosh : Kind
  tanh : Kind
  asinh : Kind
  acosh : Kind
  atanh : Kind
  bits : Kind
  len : Kind
  make_ptr : Kind
  read : Kind
  set_raise : Kind
  typetest : Kind
  make_callback : Kind
  code_ptr_callback : Kind
  free_callback : Kind
  pin : Kind
  unpin : Kind
  heap_array_const : Kind
  merge : Kind
  ffi_load : Kind
  ffi_store : Kind
  register_ref : Kind
  new_array : Kind
  stack_array : Kind
  region_array : Kind
  const : Kind
  const_str : Kind
  new_array_const : Kind
  stack_array_const : Kind
  region_array_const : Kind
  field_ref : Kind
  array_ref_const : Kind
  ffi : Kind
  ffi_struct : Kind
  get_raise : Kind
  const_e : Kind
  const_pi : Kind
  const_inf : Kind
  const_nan : Kind
  add_external : Kind
  remove_external : Kind
  memo_slot : Kind
  array_copy : Kind
  array_fill : Kind
  array_compare : Kind
  return_op : Kind
  raise : Kind
  tailcall_dyn : Kind
  move_arg : Kind
  jump : Kind
  cond : Kind
  heap : Kind
  call_dyn : Kind
  try_call_dyn : Kind
  when_dyn : Kind
  new : Kind
  stack : Kind
  region : Kind
  singleton : Kind
  call : Kind
  when : Kind

-- A statement with the children that its kind has; the others are not read.
pub record Statement : Type 0 where
  pub kind_of : Kind
  pub local : Place
  pub lhs : Place
  pub rhs : Place
  pub kind : Place
  pub value_src : Place
  pub arguments : List Argument

-- The first traversal function, before the children.
pub before : Kind → Statement → List Access
before move i = killed i.rhs ∷ defined i.local ∷ []
before drop i = killed i.local ∷ []
before freeze i = used i.rhs ∷ defined i.local ∷ []
before heap_array i = used i.lhs ∷ used i.rhs ∷ defined i.local ∷ []
before add i = used i.lhs ∷ used i.rhs ∷ defined i.local ∷ []
before sub i = used i.lhs ∷ used i.rhs ∷ defined i.local ∷ []
before mul i = used i.lhs ∷ used i.rhs ∷ defined i.local ∷ []
before div i = used i.lhs ∷ used i.rhs ∷ defined i.local ∷ []
before modulo i = used i.lhs ∷ used i.rhs ∷ defined i.local ∷ []
before pow i = used i.lhs ∷ used i.rhs ∷ defined i.local ∷ []
before and_op i = used i.lhs ∷ used i.rhs ∷ defined i.local ∷ []
before or_op i = used i.lhs ∷ used i.rhs ∷ defined i.local ∷ []
before xor i = used i.lhs ∷ used i.rhs ∷ defined i.local ∷ []
before shl i = used i.lhs ∷ used i.rhs ∷ defined i.local ∷ []
before shr i = used i.lhs ∷ used i.rhs ∷ defined i.local ∷ []
before eq i = used i.lhs ∷ used i.rhs ∷ defined i.local ∷ []
before ne i = used i.lhs ∷ used i.rhs ∷ defined i.local ∷ []
before lt i = used i.lhs ∷ used i.rhs ∷ defined i.local ∷ []
before le i = used i.lhs ∷ used i.rhs ∷ defined i.local ∷ []
before gt i = used i.lhs ∷ used i.rhs ∷ defined i.local ∷ []
before ge i = used i.lhs ∷ used i.rhs ∷ defined i.local ∷ []
before min i = used i.lhs ∷ used i.rhs ∷ defined i.local ∷ []
before max i = used i.lhs ∷ used i.rhs ∷ defined i.local ∷ []
before log_base i = used i.lhs ∷ used i.rhs ∷ defined i.local ∷ []
before atan_two i = used i.lhs ∷ used i.rhs ∷ defined i.local ∷ []
before convert i = used i.rhs ∷ defined i.local ∷ []
before copy i = used i.rhs ∷ defined i.local ∷ []
before array_ref i = used i.rhs ∷ defined i.local ∷ []
before load i = used i.rhs ∷ defined i.local ∷ []
before store i = used i.rhs ∷ defined i.local ∷ []
before lookup i = used i.rhs ∷ defined i.local ∷ []
before neg i = used i.rhs ∷ defined i.local ∷ []
before not_op i = used i.rhs ∷ defined i.local ∷ []
before abs i = used i.rhs ∷ defined i.local ∷ []
before ceil i = used i.rhs ∷ defined i.local ∷ []
before floor i = used i.rhs ∷ defined i.local ∷ []
before exp i = used i.rhs ∷ defined i.local ∷ []
before log i = used i.rhs ∷ defined i.local ∷ []
before sqrt i = used i.rhs ∷ defined i.local ∷ []
before cbrt i = used i.rhs ∷ defined i.local ∷ []
before is_inf i = used i.rhs ∷ defined i.local ∷ []
before is_nan i = used i.rhs ∷ defined i.local ∷ []
before sin i = used i.rhs ∷ defined i.local ∷ []
before cos i = used i.rhs ∷ defined i.local ∷ []
before tan i = used i.rhs ∷ defined i.local ∷ []
before asin i = used i.rhs ∷ defined i.local ∷ []
before acos i = used i.rhs ∷ defined i.local ∷ []
before atan i = used i.rhs ∷ defined i.local ∷ []
before sinh i = used i.rhs ∷ defined i.local ∷ []
before cosh i = used i.rhs ∷ defined i.local ∷ []
before tanh i = used i.rhs ∷ defined i.local ∷ []
before asinh i = used i.rhs ∷ defined i.local ∷ []
before acosh i = used i.rhs ∷ defined i.local ∷ []
before atanh i = used i.rhs ∷ defined i.local ∷ []
before bits i = used i.rhs ∷ defined i.local ∷ []
before len i = used i.rhs ∷ defined i.local ∷ []
before make_ptr i = used i.rhs ∷ defined i.local ∷ []
before read i = used i.rhs ∷ defined i.local ∷ []
before set_raise i = used i.rhs ∷ defined i.local ∷ []
before typetest i = used i.rhs ∷ defined i.local ∷ []
before make_callback i = used i.rhs ∷ defined i.local ∷ []
before code_ptr_callback i = used i.rhs ∷ defined i.local ∷ []
before free_callback i = used i.rhs ∷ defined i.local ∷ []
before pin i = used i.rhs ∷ defined i.local ∷ []
before unpin i = used i.rhs ∷ defined i.local ∷ []
before heap_array_const i = used i.lhs ∷ defined i.local ∷ []
before merge i = used i.lhs ∷ used i.rhs ∷ defined i.local ∷ []
before ffi_load i = used i.lhs ∷ used i.rhs ∷ used i.kind ∷ defined i.local ∷ []
before ffi_store i = used i.lhs ∷ used i.rhs ∷ used i.kind ∷ used i.value_src ∷ defined i.local ∷ []
before register_ref i = referenced i.rhs i.local ∷ []
before new_array i = used i.rhs ∷ defined i.local ∷ []
before stack_array i = used i.rhs ∷ defined i.local ∷ []
before region_array i = used i.rhs ∷ defined i.local ∷ []
before const i = defined i.local ∷ []
before const_str i = defined i.local ∷ []
before new_array_const i = defined i.local ∷ []
before stack_array_const i = defined i.local ∷ []
before region_array_const i = defined i.local ∷ []
before field_ref i = defined i.local ∷ []
before array_ref_const i = defined i.local ∷ []
before ffi i = defined i.local ∷ []
before ffi_struct i = defined i.local ∷ []
before get_raise i = defined i.local ∷ []
before const_e i = defined i.local ∷ []
before const_pi i = defined i.local ∷ []
before const_inf i = defined i.local ∷ []
before const_nan i = defined i.local ∷ []
before add_external i = defined i.local ∷ []
before remove_external i = defined i.local ∷ []
before memo_slot i = defined i.local ∷ []
before array_copy i = defined i.local ∷ []
before array_fill i = defined i.local ∷ []
before array_compare i = defined i.local ∷ []
before return_op i = killed i.local ∷ []
before raise i = killed i.local ∷ []
before tailcall_dyn i = killed i.local ∷ []
before move_arg i = killed i.rhs ∷ []
before jump _ = []
before cond i = used i.local ∷ []
before heap _ = []
before call_dyn _ = []
before try_call_dyn _ = []
before when_dyn _ = []
before new _ = []
before stack _ = []
before region _ = []
before singleton _ = []
before call _ = []
before when _ = []

-- The second one, behind the children.
pub after : Kind → Statement → List Access
after heap i = used i.rhs ∷ defined i.local ∷ []
after call_dyn i = used i.rhs ∷ defined i.local ∷ []
after try_call_dyn i = used i.rhs ∷ defined i.local ∷ []
after when_dyn i = used i.rhs ∷ defined i.local ∷ []
after new i = defined i.local ∷ []
after stack i = defined i.local ∷ []
after region i = defined i.local ∷ []
after singleton i = defined i.local ∷ []
after call i = defined i.local ∷ []
after when i = defined i.local ∷ []
after _ _ = []

pub pass_argument : Argument → Access
pass_argument (copied p) = used p
pass_argument (moved p) = killed p

pub accesses : Statement → List Access
unfolding before after pass_argument
accesses i = before i.kind_of i ++ (map pass_argument i.arguments ++ after i.kind_of i)

-- The statements of a label, its terminator last.
unfoldable pub body_accesses : List Statement → List Access
unfolding accesses
body_accesses [] = []
body_accesses (i ∷ is) = accesses i ++ body_accesses is
