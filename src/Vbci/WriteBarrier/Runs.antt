-- ===== src/Vbci/WriteBarrier/Runs.antt =====
-- The runs of `exchange` for a field of a region on the heap.
use Prim.Native.Nat.{bit_and}
use verona_bc.Vbci.Location.{is_stack, is_immortal, is_region, immortal}
use verona_bc.Vbci.Regions.Owners.{clear_parent-unowned}
use verona_bc.Prelude.{
  Bool-cases, inl, inr, ℕ, ◌≡◌, ◌≢◌, Bool, true, false, Option, none, some, List, [], ◌∷◌, ◌==◌,
  refl, ap, ◌∙◌, arith,
}
use verona_bc.Prelude.Integers.{pos}
use verona_bc.Vbci.Regions.{
  Store, unowned, has_owner, is_ancestor_of, stack_inc, stack_dec, set_parent, clear_parent,
}
use verona_bc.Vbci.WriteBarrier.{
  WriteOps, no_ops, prepare_store, prepare_out, prepare_in, prepare_in_heap, in_parent, Drag,
  to_addr, clear_register, in_field_inc,
}
use verona_bc.Vbci.WriteBarrier.Apply.{exchange, stored}
use verona_bc.Vbci.WriteBarrier.Plan.{
  IsHeap, plan_store, plan_out, plan_in, plan_fresh, plan_owned, taken,
}

-- The plan so far, for an old value in another region.
abbrev pub replaces : ℕ → ℕ → WriteOps
replaces st out = record no_ops {
  store_loc = st;
  out_loc = out;
  need_out_stack_inc = pos 1;
  need_out_clear_parent = true;
  out_clear_parent_region = some out;
}

module _ (drag : Drag) (fuel : ℕ) (frames : List ℕ) (h : ℕ) (s : Store) (st out : ℕ)
    (hs : IsHeap s st) (ho : IsHeap s out) (apart : st ≢ out) where
  planned :
      (is_move : Bool) (in_r : ℕ)
      → IsHeap s in_r
      → prepare_in fuel frames is_move s in_r (prepare_out s out (prepare_store st no_ops))
        ≡ prepare_in_heap fuel s (taken is_move (record (replaces st out) { in_loc = in_r }))
  planned is_move in_r hi =
      rw (plan_store s st hs, plan_out s st out hs ho apart)
        (plan_in fuel frames s in_r is_move (replaces st out) refl hi)

  module _ (in_r : ℕ) (hi : IsHeap s in_r) (apart' : st ≢ in_r) (apart'' : out ≢ in_r)
      (free : has_owner (s.regions in_r) ≡ false)
      (up : is_ancestor_of fuel s in_r st ≡ some false) where
    plan_copy :
        prepare_in fuel frames false s in_r (prepare_out s out (prepare_store st no_ops))
        ≡ some (in_parent st (taken false (record (replaces st out) { in_loc = in_r })))
    plan_copy = planned false in_r hi ∙ plan_fresh fuel s _ hs apart' free up

    plan_move :
        prepare_in fuel frames true s in_r (prepare_out s out (prepare_store st no_ops))
        ≡ some (in_parent st (taken true (record (replaces st out) { in_loc = in_r })))
    plan_move = planned true in_r hi ∙ plan_fresh fuel s _ hs apart' free up

    pub exchange_copy :
        (s1 s2 s3 : Store)
        → set_parent fuel s in_r st h ≡ some s1
        → stack_inc fuel s1 out 1 ≡ some s2
        → clear_parent fuel s2 out ≡ some s3
        → exchange drag fuel frames false (some h) s st out in_r
          ≡ some (stored s3 (to_addr ∷ in_field_inc ∷ []))
    unfolding exchange
    exchange_copy s1 s2 s3 a b c =
        let oi : (out == in_r) ≡ false = ground arith in
        rw (plan_copy, oi, hi.region, a, ho.region, b, c) refl

    pub exchange_move :
        (alive : Bool) (s1 s2 s3 s4 : Store)
        → set_parent fuel s in_r st h ≡ some s1
        → stack_dec fuel s1 in_r 1 ≡ some (alive, s2)
        → stack_inc fuel s2 out 1 ≡ some s3
        → clear_parent fuel s3 out ≡ some s4
        → exchange drag fuel frames true (some h) s st out in_r
          ≡ some (stored s4 (to_addr ∷ clear_register ∷ []))
    unfolding exchange
    exchange_move alive s1 s2 s3 s4 a d b c =
        let oi : (out == in_r) ≡ false = ground arith in
        rw (plan_move, oi, hi.region, a, d, ho.region, b, c) refl

  -- Both values are in one child of the region that is written, which loses its parent all the same.
  pub exchange_owned :
      (s1 s2 : Store)
      → has_owner (s.regions out) ≡ true
      → stack_inc fuel s out 1 ≡ some s1
      → clear_parent fuel s1 out ≡ some s2
      → exchange drag fuel frames false (some h) s st out out
        ≡ some (stored s2 (to_addr ∷ in_field_inc ∷ []))
  unfolding exchange
  exchange_owned s1 s2 owned a c =
      let plan =
        planned false out ho
        ∙ plan_owned fuel s (taken false (record (replaces st out) { in_loc = out })) hs apart owned
            refl in
      let oo : (out == out) ≡ true = ground arith in rw (plan, oo, ho.region, a, ho.region, c) refl

-- Words with different tags differ.
elsewhere :
    (a b t t' : ℕ)
    → (bit_and a 7 == t) ≡ true
    → (bit_and b 7 == t') ≡ true
    → t ≢ t'
    → (a == b) ≡ false
elsewhere a b t t' ha hb apart = elim (Bool-cases (a == b)) [
  | inl same ↦
      let e : a ≡ b = ground arith in absurd (apart (ground (arith, ap (λ w. bit_and w 7) e)))
  | inr differ ↦ differ
]

-- The plan for a location on the stack that refers to a region on the heap, and gets an immortal value.
abbrev pub forgets : ℕ → ℕ → ℕ → WriteOps
forgets st out next = record no_ops {
  store_loc = st;
  out_loc = out;
  in_loc = next;
  need_out_clear_parent = true;
  out_clear_parent_region = some out;
}

module _ (drag : Drag) (fuel : ℕ) (frames : List ℕ) (header : Option ℕ) (s : Store)
    (st out next : ℕ) (hs : is_stack st ≡ true) (ho : is_region out ≡ true)
    (hn : is_immortal next ≡ true) where
  plan_stack :
      (is_move : Bool)
      → prepare_in fuel frames is_move s next (prepare_out s out (prepare_store st no_ops))
        ≡ some (forgets st out next)
  plan_stack is_move =
      let s2 : (bit_and st 7 == 2) ≡ false = ground arith in
      let s4 : (bit_and st 7 == 4) ≡ false = ground arith in
      let s5 : (bit_and st 7 == 5) ≡ false = ground arith in
      let so : (st == out) ≡ false = elsewhere st out 1 0 hs ho (λ e. ground arith) in
      let store : prepare_store st no_ops ≡ record no_ops { store_loc = st } =
        rw (s2, s4, s5) refl in
      let left : prepare_out s out (record no_ops { store_loc = st })
          ≡ record (forgets st out next) { in_loc = immortal } =
        rw (hs, ho, so) refl in
      rw (store, left, hn) refl

  -- A location on the stack refers to a region on the heap without an owner, and gets an immortal value: the
  -- barrier asks the old value's region to give up its parent, and the assertion in clear_parent fails.
  pub exchange_stack-none :
      (is_move : Bool)
      → (s.regions out).owner ≡ unowned
      → exchange drag fuel frames is_move header s st out next ≡ none
  unfolding exchange
  exchange_stack-none true own =
      let on : (out == next) ≡ false = elsewhere out next 0 4 ho hn (λ e. ground arith) in
      rw (plan_stack true, on, ho, clear_parent-unowned fuel s out own) refl
  exchange_stack-none false own =
      let on : (out == next) ≡ false = elsewhere out next 0 4 ho hn (λ e. ground arith) in
      rw (plan_stack false, on, ho, clear_parent-unowned fuel s out own) refl
