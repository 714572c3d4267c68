-- ===== src/Liveness/Flow/Next.antt =====
-- A round of the dataflow keeps the invariant of the worklist.
use native.Mathlib.Decide.{ℕ_discrete}
use verona_bc.Prelude.{
  ℕ, ◌<◌, ◌≡◌, ◌≢◌, refl, sym, ap, ◌∙◌, true, false, ◌&&◌, ◌||◌, List, [], ◌∷◌, ◌++◌, arith, length,
  Bool-cases, inl, inr,
}
use verona_bc.Bitset.{make}
use verona_bc.Bitset.Laws.{has, capacity}
use verona_bc.Liveness.Flow.{FlowLabel}
use verona_bc.Liveness.Flow.Kept.{at, needs, holds, kills, is_in}
use verona_bc.Liveness.Flow.Merge.{defines}
use verona_bc.Liveness.Flow.Visit.{Went}
use verona_bc.Liveness.Flow.Live.{LiveAt, read_later, DefinedAt, defined_later, IsGraph, Inv}

pub is_in-append : (i : ℕ) (xs ys : List ℕ) → is_in i (xs ++ ys) ≡ (is_in i xs || is_in i ys)
is_in-append i [] ys = refl
is_in-append i (x ∷ xs) ys = ground (arith, is_in-append i xs ys)

module _ (n p : ℕ) (xs ys zs : List FlowLabel) (id : ℕ) (q q' : List ℕ) (graph : IsGraph p xs)
    (inv : Inv n xs ys (id ∷ q)) (w : Went n ys zs id q q') where
  id-lt : id < length xs
  id-lt = inv.queued id (ground arith)

  stays : (i : ℕ) → is_in i q' ≡ false → is_in i q ≡ false
  stays i h = elim w.queue [
    | inl (same, e) ↦ sym (ap (is_in i) e) ∙ h
    | inr (e, l) ↦ ground (arith, ap (is_in i) e, is_in-append i q (at ys id).pred)
  ]

  -- What is not queued again has no successor whose set changed.
  stable :
      (i s : ℕ)
      → i < length xs
      → is_in i q' ≡ false
      → is_in s (at xs i).succ ≡ true
      → (at zs s).state.live_in ≡ (at ys s).state.live_in
  stable i s h out e = elim (ℕ_discrete id s) [
    | no ne ↦ w.other_in s ne
    | yes same ↦ elim w.queue [
      | inl (kept, e') ↦ rw (sym same) kept
      | inr (e', l) ↦
          let known : is_in i (at xs s).pred ≡ true = graph.back i s h e in
          let known' : is_in i (at ys id).pred ≡ true =
            ap (is_in i) (inv.pred id) ∙ rw same known in
          absurd (ground (arith, ap (is_in i) e', is_in-append i q (at ys id).pred))
    ]
  ]

  stable_at :
      (i s r : ℕ)
      → i < length xs
      → is_in i q' ≡ false
      → is_in s (at xs i).succ ≡ true
      → needs zs s r ≡ needs ys s r
  stable_at i s r h out e = ap (λ b. has b r) (stable i s h out e)

  other_needs : (i r : ℕ) → id ≢ i → needs zs i r ≡ needs ys i r
  other_needs i r ne = ap (λ b. has b r) (w.other_in i ne)

  other_holds : (i r : ℕ) → id ≢ i → holds zs i r ≡ holds ys i r
  other_holds i r ne = ap (λ b. has b r) (w.other_out i ne)

  grows_at : (i r : ℕ) → r < capacity (make n) → needs ys i r ≡ true → needs zs i r ≡ true
  grows_at i r k e = elim (ℕ_discrete id i) [
    | yes same ↦ rw (sym same) (w.grows r k (rw (sym same) at e))
    | no ne ↦ other_needs i r ne ∙ e
  ]

  next_sound : (i r : ℕ) → r < capacity (make n) → needs zs i r ≡ true → LiveAt xs r i
  next_sound i r k e = elim (ℕ_discrete id i) [
    | no ne ↦ inv.sound i r k (sym (other_needs i r ne) ∙ e)
    | yes same ↦ elim (w.comes r k (rw (sym same) at e)) [
      | inl before ↦ rw (sym same) (inv.sound id r k before)
      | inr (s, i, need, idle) ↦ rw (sym same) (
          read_later (sym (ap (is_in s) (inv.succ id)) ∙ i) (ground (arith, inv.start_out id r k))
            (inv.sound s r k need))
    ]
  ]

  next_defd_sound : (i r : ℕ) → r < n → defines zs i r ≡ true → DefinedAt xs r i
  next_defd_sound i r k e = elim (ℕ_discrete id i) [
    | no ne ↦ inv.defd_sound i r k (sym (ap (λ b. has b r) (w.other_defd i ne)) ∙ e)
    | yes same ↦ elim (w.defd_comes r k (rw (sym same) at e)) [
      | inl before ↦ rw (sym same) (inv.defd_sound id r k before)
      | inr (s, i, def) ↦
          rw (sym same)
            (defined_later (sym (ap (is_in s) (inv.succ id)) ∙ i) (inv.defd_sound s r k def))
    ]
  ]

  next_settled :
      (i s r : ℕ)
      → i < length xs
      → r < capacity (make n)
      → is_in i q' ≡ false
      → is_in s (at xs i).succ ≡ true
      → needs zs s r ≡ true
      → (needs zs i r || holds xs i r) ≡ true
  next_settled i s r h k out e need =
      let before : needs ys s r ≡ true = sym (stable_at i s r h out e) ∙ need in
      elim (ℕ_discrete id i) [
        | no ne ↦ ground (
          arith,
          inv.settled i s r h k (ground (arith, stays i out)) e before,
          other_needs i r ne,
        )
        | yes same ↦
            let e' : is_in s (at xs id).succ ≡ true = rw same e in
            let read = w.reads s r k (ap (is_in s) (inv.succ id) ∙ e') before in
            rw (sym same) (ground (arith, read, inv.out_comes id r k, w.grows r k))
      ]

  next_clear :
      (i s r : ℕ)
      → i < length xs
      → r < n
      → is_in i q' ≡ false
      → is_in s (at xs i).succ ≡ true
      → (needs zs s r && kills xs i r) ≡ false
  next_clear i s r h k out e =
      let same_need = stable_at i s r h out e in
      elim (ℕ_discrete id i) [
        | no ne ↦ ground (arith, inv.clear i s r h k (ground (arith, stays i out)) e, same_need)
        | yes same ↦
            let e' : is_in s (at xs id).succ ≡ true = rw same e in
            let clear = w.clear s r k (ap (is_in s) (inv.succ id) ∙ e') in
            let same_kill : kills ys i r ≡ kills xs i r = ap (λ b. has b r) (inv.dead i) in
            let clear' : (needs ys s r && kills ys i r) ≡ false = rw same at clear in ground arith
      ]

  next_out :
      (r : ℕ)
      → r < capacity (make n)
      → holds zs id r ≡ true
      → (holds xs id r || needs zs id r) ≡ true
  next_out r k e = ground (arith, w.out_comes r k e, inv.out_comes id r k, w.grows r k)

  next_queued : (i : ℕ) → is_in i q' ≡ true → i < length xs
  next_queued i e = elim w.queue [
    | inl (same, e') ↦ inv.queued i (ground (arith, ap (is_in i) e'))
    | inr (e', l) ↦ elim (Bool-cases (is_in i q)) [
      | inl old ↦ inv.queued i (ground arith)
      | inr new ↦ graph.pred_in id i id-lt (
          ground
            (arith, ap (is_in i) e', is_in-append i q (at ys id).pred, ap (is_in i) (inv.pred id)))
    ]
  ]

  pub Inv-next : Inv n xs zs q'
  Inv-next = record {
    size = w.size ∙ inv.size;
    fits = w.fits;
    pred = λ i. w.pred i ∙ inv.pred i;
    succ = λ i. w.succ i ∙ inv.succ i;
    dead = λ i. w.dead i ∙ inv.dead i;
    sound = next_sound;
    defd_sound = next_defd_sound;
    start_in = λ i r k e. grows_at i r k (inv.start_in i r k e);
    start_out = λ i r k e. elim (ℕ_discrete id i) [
      | yes same ↦ rw (sym same) (w.out_grows r k (rw (sym same) at (inv.start_out i r k e)))
      | no ne ↦ other_holds i r ne ∙ inv.start_out i r k e
    ];
    out_comes = λ i r k e. elim (ℕ_discrete id i) [
      | yes same ↦ rw (sym same) (next_out r k (rw (sym same) at e))
      | no ne ↦ ground (arith, other_holds i r ne, other_needs i r ne, inv.out_comes i r k)
    ];
    settled = next_settled;
    clear = next_clear;
    queued = next_queued;
  }
