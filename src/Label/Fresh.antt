-- ===== src/Label/Fresh.antt =====
-- The state of a label before its first statement.
use verona_bc.Prelude.{ℕ, ◌<◌, ◌≡◌, false, [], arith, length-resize, none}
use verona_bc.Bitset.{Bitset, resize_set}
use verona_bc.Bitset.Laws.{has, test_in}
use verona_bc.Bitset.Extensional.{test-resize_set, resize_set-capacity}
use verona_bc.Bitset.Sets.{test_lem}
use verona_bc.Label.{LabelState, resize_label}
use verona_bc.Label.Apart.{IsInRange, IsApart}

-- `LabelState`'s initial value, before `resize`.
abbrev pub new_label : LabelState
new_label = record {
  first_def = [];
  first_use = [];
  last_use = [];
  live_in = record { bits = [] };
  defd = record { bits = [] };
  dead = record { bits = [] };
  live_out = record { bits = [] };
  used = record { bits = [] };
}

has-resize_set : (n i : ℕ) → i < n → has (resize_set (record { bits = [] }) n) i ≡ false
has-resize_set n i h =
    let b : Bitset = resize_set (record { bits = [] }) n in
    ground (
      arith,
      test_in b i (resize_set-capacity (record { bits = [] }) n i h),
      test-resize_set (record { bits = [] }) n i h,
      test_lem (record { bits = [] }) i,
    )

-- After a label's `resize(n)` every register below `n` is in range of every vector and set. In a new
-- label none of them is live and dead at once, or live on entry without being used.
pub resize_label-IsApart :
    (s : LabelState) (n i : ℕ)
    → i < n
    → IsInRange (resize_label s n) i × IsApart (resize_label new_label n) i
unfolding resize_label
resize_label-IsApart s n i h = (
  (
    omega (arith, length-resize n none s.first_def),
    omega (arith, length-resize n none s.first_use),
    omega (arith, length-resize n none s.last_use),
    resize_set-capacity s.live_in n i h,
    resize_set-capacity s.defd n i h,
    resize_set-capacity s.dead n i h,
    resize_set-capacity s.live_out n i h,
    resize_set-capacity s.used n i h,
  ),
  (ground (arith, has-resize_set n i h), ground (arith, has-resize_set n i h)),
)

-- No register of a new label is in a set.
pub nothing_yet :
    (n i : ℕ)
    → i < n
    → let s : LabelState = resize_label new_label n in
      (has s.live_in i ≡ false)
      × (has s.live_out i ≡ false)
      × (has s.dead i ≡ false)
      × (has s.defd i ≡ false)
unfolding resize_label
nothing_yet n i h =
    (has-resize_set n i h, has-resize_set n i h, has-resize_set n i h, has-resize_set n i h)
