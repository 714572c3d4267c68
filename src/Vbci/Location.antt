-- ===== src/Vbci/Location.antt =====
-- Where a value lives: `Location` of vbci/location.h, a pointer-sized word with a tag in its low bits.
pub mod Tags
pub mod Tests
use Prim.Native.Nat.{bit_and, bit_or}
use verona_bc.Prelude.{
  ℕ, ◌+◌, ◌-◌, ◌*◌, ◌/◌, ◌^◌, ◌%◌, Bool, ◌||◌, Option, none, some, ◌==◌, if◌then◌else◌,
}

abbrev pub mask : ℕ
mask = 7

abbrev pub frame_inc : ℕ
frame_inc = 8

abbrev pub tag_of_location : ℕ → ℕ
tag_of_location value = bit_and value mask

abbrev pub stack : ℕ
stack = 1

abbrev pub immutable : ℕ
immutable = 2

abbrev pub pending_tag : ℕ
pending_tag = 3

abbrev pub immortal : ℕ
immortal = 4

abbrev pub scc_tag : ℕ
scc_tag = 5

abbrev pub is_region : ℕ → Bool
is_region value = tag_of_location value == 0

abbrev pub is_stack : ℕ → Bool
is_stack value = tag_of_location value == stack

abbrev pub is_immortal : ℕ → Bool
is_immortal value = tag_of_location value == immortal

abbrev pub is_scc_ptr : ℕ → Bool
is_scc_ptr value = tag_of_location value == scc_tag

abbrev pub is_immutable : ℕ → Bool
is_immutable value = tag_of_location value == immutable || tag_of_location value == scc_tag

abbrev pub is_pending : ℕ → Bool
is_pending value = tag_of_location value == pending_tag

-- `none` is a failed assertion, here and below.
abbrev pub to_region : ℕ → Option ℕ
to_region value = if is_region value then some value else none

pub pending : ℕ → Option ℕ
pending value = if is_region value then some (bit_or value pending_tag) else none

pub unpending : ℕ → Option ℕ
unpending value = if is_pending value then some (bit_and value (2 ^ 64 - 1 - pending_tag)) else none

-- The sum wraps in 64 bits.
pub next_stack_level : ℕ → Option ℕ
next_stack_level value = if is_stack value then some ((value + frame_inc) % 2 ^ 64) else none

pub stack_index : ℕ → Option ℕ
stack_index value = if is_stack value then some ((value - stack) / frame_inc) else none

unfoldable pub scc_ptr : ℕ → ℕ
scc_ptr h = bit_or scc_tag h

unfoldable pub scc_target : ℕ → Option ℕ
scc_target value = if is_scc_ptr value then some (bit_and value (2 ^ 64 - 1 - mask)) else none
