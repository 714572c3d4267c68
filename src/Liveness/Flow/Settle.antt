-- ===== src/Liveness/Flow/Settle.antt =====
-- The end of a round: the new sets of the label, and who is queued again.
use native.Mathlib.Decide.{ℕ_discrete}
use verona_bc.Prelude.{
  ℕ, ◌<◌, ◌≡◌, ◌≢◌, refl, sym, ap, true, false, not, ◌&&◌, ◌||◌, some, List, ◌++◌, arith, set,
  length, Bool-cases, inl, inr, ◌⊎◌, length-set, get_or-set,
}
use verona_bc.Bitset.{Bitset, make, complement, differs}
use verona_bc.Bitset.Laws.{has, capacity, IsWords}
use verona_bc.Bitset.Algebra.{
  both, either, and_with_in, or_with_in, has-both, has-either, has-complement, capacity-both,
  capacity-either, capacity-complement,
}
use verona_bc.Bitset.Extensional.{eq_of_differs}
use verona_bc.Bitset.Counting.{IsWords-both, IsWords-either, count, count_grows}
use verona_bc.Label.{LabelState}
use verona_bc.Liveness.Flow.{FlowLabel, with_state, went, settle}
use verona_bc.Liveness.Flow.Kept.{blank, at, needs, holds, IsFit}
use verona_bc.Liveness.Flow.Merge.{defines, at-set_self, at-set_ne, Fits}

pub record Settled (n : ℕ) (xs ys : List FlowLabel) (id : ℕ) (out d : Bitset) (q q' : List ℕ)
    : Type 0 where
  pub size : length ys ≡ length xs
  pub fits : Fits n ys
  pub pred : (i : ℕ) → (at ys i).pred ≡ (at xs i).pred
  pub succ : (i : ℕ) → (at ys i).succ ≡ (at xs i).succ
  pub dead : (i : ℕ) → (at ys i).state.dead ≡ (at xs i).state.dead
  pub others : (i : ℕ) → id ≢ i → at ys i ≡ at xs i
  pub new_in :
      (r : ℕ)
      → r < capacity (make n)
      → needs ys id r ≡ (has out r && not (holds xs id r) || needs xs id r)
  pub new_defd : (r : ℕ) → r < capacity (make n) → defines ys id r ≡ (defines xs id r || has d r)
  pub queue :
      ((at ys id).state.live_in ≡ (at xs id).state.live_in)
        × ((at ys id).state.live_out ≡ (at xs id).state.live_out)
        × (q' ≡ q)
      ⊎ ((at ys id).state.live_out ≡ out)
        × (q' ≡ q ++ (at xs id).pred)
        × (count (at xs id).state.live_in < count (at ys id).state.live_in)

set-Fits :
    (n : ℕ) (xs : List FlowLabel) (id : ℕ) (s : LabelState)
    → Fits n xs
    → id < length xs
    → IsFit n s
    → Fits n (set xs id (with_state (at xs id) s))
set-Fits n xs id s f h fs i hi = elim (ℕ_discrete id i) [
  | yes e ↦ rw (sym e) (rw (at-set_self xs id (with_state (at xs id) s) h) fs)
  | no ne ↦
      rw (at-set_ne xs id i (with_state (at xs id) s) h ne)
        (f i (omega (arith, length-set xs id (with_state (at xs id) s))))
]

set-pred :
    (xs : List FlowLabel) (id i : ℕ) (s : LabelState)
    → id < length xs
    → (at (set xs id (with_state (at xs id) s)) i).pred ≡ (at xs i).pred
set-pred xs id i s h = ground (arith, get_or-set xs id i (with_state (at xs id) s) blank h)

set-succ :
    (xs : List FlowLabel) (id i : ℕ) (s : LabelState)
    → id < length xs
    → (at (set xs id (with_state (at xs id) s)) i).succ ≡ (at xs i).succ
set-succ xs id i s h = ground (arith, get_or-set xs id i (with_state (at xs id) s) blank h)

set-dead :
    (xs : List FlowLabel) (id i : ℕ) (s : LabelState)
    → id < length xs
    → s.dead ≡ (at xs id).state.dead
    → (at (set xs id (with_state (at xs id) s)) i).state.dead ≡ (at xs i).state.dead
set-dead xs id i s h e = ground (arith, get_or-set xs id i (with_state (at xs id) s) blank h)

module _ (n : ℕ) (xs : List FlowLabel) (id : ℕ) (fits : Fits n xs) (h : id < length xs) (q : List ℕ)
    (out d : Bitset) where
  abbrev minus : Bitset
  minus = both out (complement (at xs id).state.live_out)

  abbrev in' : Bitset
  in' = either minus (at xs id).state.live_in

  module _ (co : capacity out ≡ capacity (make n)) (ow : IsWords out)
      (cd : capacity d ≡ capacity (make n)) where
    capacity-minus : capacity minus ≡ capacity (make n)
    capacity-minus =
        let l = fits id h in
        let a = capacity-complement (at xs id).state.live_out in
        let b =
          capacity-both out (complement (at xs id).state.live_out) (omega (arith, l.live_out)) in
        omega arith

    capacity-in : capacity in' ≡ capacity (make n)
    capacity-in =
        let l = fits id h in
        let b =
          capacity-either minus (at xs id).state.live_in
            (omega (arith, l.live_in, capacity-minus)) in
        omega (arith, capacity-minus)

    in-IsWords : IsWords in'
    in-IsWords =
        let l = fits id h in
        IsWords-either minus (at xs id).state.live_in
          (IsWords-both out (complement (at xs id).state.live_out) ow) l.in_words

    has-in :
        (r : ℕ)
        → r < capacity (make n)
        → has in' r ≡ (has out r && not (holds xs id r) || needs xs id r)
    has-in r k =
        let l = fits id h in
        let o = (at xs id).state.live_out in
        let compl = capacity-complement o in
        let a = has-complement o r l.out_words (omega (arith, l.live_out)) in
        let b = has-both out (complement o) r (omega (arith, l.live_out)) (omega arith) in
        let c =
          has-either minus (at xs id).state.live_in r (omega (arith, l.live_in, capacity-minus))
            (omega (arith, capacity-minus)) in
        ground arith

    abbrev defd' : Bitset
    defd' = either (at xs id).state.defd d

    abbrev same_sets : LabelState
    same_sets = record ((at xs id).state) { defd = defd' }

    abbrev new_sets : LabelState
    new_sets = record ((at xs id).state) { defd = defd'; live_in = in'; live_out = out }

    capacity-defd : capacity defd' ≡ capacity (make n)
    capacity-defd =
        let l = fits id h in
        let b = capacity-either (at xs id).state.defd d (omega (arith, l.defd)) in
        omega (arith, l.defd)

    same-IsFit : IsFit n same_sets
    same-IsFit =
        let l = fits id h in
        record {
          first_def = l.first_def;
          first_use = l.first_use;
          live_in = l.live_in;
          live_out = l.live_out;
          dead = l.dead;
          defd = capacity-defd;
          in_words = l.in_words;
          out_words = l.out_words;
        }

    new-IsFit : IsFit n new_sets
    new-IsFit =
        let l = fits id h in
        record {
          first_def = l.first_def;
          first_use = l.first_use;
          live_in = capacity-in;
          live_out = co;
          dead = l.dead;
          defd = capacity-defd;
          in_words = in-IsWords;
          out_words = ow;
        }

    has-defd : (r : ℕ) → r < capacity (make n) → has defd' r ≡ (defines xs id r || has d r)
    has-defd r k =
        let l = fits id h in
        has-either (at xs id).state.defd d r (omega (arith, l.defd)) (omega (arith, l.defd))

    -- The step, by the test whether the set changes.
    settle_same :
        differs in' (at xs id).state.live_in ≡ false
        → settle id xs q (at xs id) out d
          ≡ some (went (set xs id (with_state (at xs id) same_sets)) q)
    unfolding settle
    settle_same e =
        let l = fits id h in
        let o = (at xs id).state.live_out in
        let compl = capacity-complement o in
        rw
          (
            or_with_in (at xs id).state.defd d (omega (arith, l.defd)),
            and_with_in out (complement o) (omega (arith, l.live_out)),
            or_with_in minus (at xs id).state.live_in (omega (arith, l.live_in, capacity-minus)),
            e,
          )
          refl

    settle_new :
        differs in' (at xs id).state.live_in ≡ true
        → settle id xs q (at xs id) out d
          ≡ some (went (set xs id (with_state (at xs id) new_sets)) (q ++ (at xs id).pred))
    unfolding settle
    settle_new e =
        let l = fits id h in
        let o = (at xs id).state.live_out in
        let compl = capacity-complement o in
        rw
          (
            or_with_in (at xs id).state.defd d (omega (arith, l.defd)),
            and_with_in out (complement o) (omega (arith, l.live_out)),
            or_with_in minus (at xs id).state.live_in (omega (arith, l.live_in, capacity-minus)),
            e,
          )
          refl

    settle_unchanged :
        differs in' (at xs id).state.live_in ≡ false
        → Settled n xs (set xs id (with_state (at xs id) same_sets)) id out d q q
    settle_unchanged e =
        let same : in' ≡ (at xs id).state.live_in = eq_of_differs in' (at xs id).state.live_in e in
        let self = at-set_self xs id (with_state (at xs id) same_sets) h in
        record {
          size = length-set xs id (with_state (at xs id) same_sets);
          fits = set-Fits n xs id same_sets fits h same-IsFit;
          pred = λ i. set-pred xs id i same_sets h;
          succ = λ i. set-succ xs id i same_sets h;
          dead = λ i. set-dead xs id i same_sets h refl;
          others = λ i ne. at-set_ne xs id i (with_state (at xs id) same_sets) h ne;
          new_in = λ r k. rw self (ground (arith, has-in r k, ap (λ b. has b r) same));
          new_defd = λ r k. rw self (has-defd r k);
          queue = inl (rw self refl, rw self refl, refl);
        }

    settle_changed :
        differs in' (at xs id).state.live_in ≡ true
        → Settled n xs
            (set xs id (with_state (at xs id) new_sets))
            id
            out
            d
            q
            (q ++ (at xs id).pred)
    settle_changed e =
        let l = fits id h in
        let self = at-set_self xs id (with_state (at xs id) new_sets) h in
        record {
          size = length-set xs id (with_state (at xs id) new_sets);
          fits = set-Fits n xs id new_sets fits h new-IsFit;
          pred = λ i. set-pred xs id i new_sets h;
          succ = λ i. set-succ xs id i new_sets h;
          dead = λ i. set-dead xs id i new_sets h refl;
          others = λ i ne. at-set_ne xs id i (with_state (at xs id) new_sets) h ne;
          new_in = λ r k. rw self (has-in r k);
          new_defd = λ r k. rw self (has-defd r k);
          queue = inr (
            rw self refl,
            refl,
            rw self (
                count_grows (at xs id).state.live_in in' l.in_words in-IsWords
                  (omega (arith, l.live_in, capacity-in))
                  (λ r k t. ground (arith, has-in r (omega (arith, l.live_in)))) e),
          );
        }

    pub settle_in :
        (ys : List FlowLabel) × (q' : List ℕ) × (settle id xs q (at xs id) out d
          ≡ some (went ys q'))
        × Settled n xs ys id out d q q'
    settle_in = elim (Bool-cases (differs in' (at xs id).state.live_in)) [
      | inl changed ↦ (_, _, settle_new changed, settle_changed changed)
      | inr same ↦ (_, _, settle_same same, settle_unchanged same)
    ]
