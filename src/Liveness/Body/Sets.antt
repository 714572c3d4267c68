-- ===== src/Liveness/Body/Sets.antt =====
-- What the traversal of a body without errors leaves in the sets of the label, by the accesses alone.
use verona_bc.Prelude.{
  ℕ, ◌≤◌, ◌<◌, ◌≡◌, Bool, true, false, not, ◌&&◌, ◌||◌, Option, some, List, [], ◌∷◌, ◌==◌,
  if◌then◌else◌, arith, refl, inl, inr, ◌⊎◌, Bool-cases, ap, sym, ◌∙◌, All,
}
use verona_bc.Bitset.{Bitset}
use verona_bc.Bitset.Laws.{has, capacity, test_in}
use verona_bc.Label.{LabelState}
use verona_bc.Label.Apart.{IsInRange}
use verona_bc.Label.Effect.{Effect, Effect-IsParted, IsParted, use_effect, kill_effect, def_effect}
use verona_bc.Liveness.Body.{Pass, define, access, traverse}
use verona_bc.Liveness.Body.Statements.{Place, Access, used, killed, defined, referenced}

-- The register that an access changes, and how.
abbrev pub target : Access → ℕ
target (used place) = place.register
target (killed place) = place.register
target (defined place) = place.register
target (referenced source place) = place.register

abbrev pub reads : Access → Bool
reads (used place) = true
reads (killed place) = true
reads (defined place) = false
reads (referenced source place) = false

abbrev pub kills : Access → Bool
kills (used place) = false
kills (killed place) = true
kills (defined place) = false
kills (referenced source place) = false

-- The first access of the register reads it.
abbrev pub reads_first : List Access → ℕ → Bool
reads_first [] r = false
reads_first (a ∷ rest) r = if target a == r then reads a else reads_first rest r

-- What the last access of the register makes of it, and `b` without one.
abbrev pub ends_dead : Bool → List Access → ℕ → Bool
ends_dead b [] r = b
ends_dead b (a ∷ rest) r = ends_dead (if target a == r then kills a else b) rest r

abbrev pub ends_live : Bool → List Access → ℕ → Bool
ends_live b [] r = b
ends_live b (a ∷ rest) r = ends_live (if target a == r then not (kills a) else b) rest r

abbrev pub defines_any : List Access → ℕ → Bool
defines_any [] r = false
defines_any (a ∷ rest) r = (target a == r && not (reads a)) || defines_any rest r

abbrev pub IsNamed : ℕ → Access → Type 0
IsNamed n (used place) = place.register < n
IsNamed n (killed place) = place.register < n
IsNamed n (defined place) = place.register < n
IsNamed n (referenced source place) = (source.register < n) × (place.register < n)

-- The registers below `n` are in range, and none is live and dead.
abbrev pub IsSound : ℕ → LabelState → Type 0
IsSound n s = ((i : ℕ) → i < n → IsInRange s i) × IsParted n s

module _ (n : ℕ) (vars : Bitset) (sized : n ≤ capacity vars) where
  -- An access does not throw. It is accepted with its effect, or an error is reported.
  abbrev Accessed : Pass → Access → Option Pass → Type 0
  Accessed p a o =
      (q : Pass) × (o ≡ some q)
      × IsSound n q.state
      × (((q.error ≡ p.error)
            × ((reads a && has p.state.dead (target a)) ≡ false)
            × Effect n (target a) (reads a) (kills a) (not (reads a)) p.state q.state)
          ⊎ (q.error ≡ true))

  define_in :
      (p : Pass) (place : Place)
      → IsSound n p.state
      → place.register < n
      → Accessed p (defined place) (define vars p place)
  unfolding define
  define_in p place (within, parted) h =
      let t = test_in vars place.register (omega arith) in
      elim (def_effect n p.state place.register within h parted p.tree place.at_node
        (has vars place.register)) [
          | inl (s, tree, e, f) ↦ (
            record p { state = s; tree = tree },
            rw (t, e) refl,
            (f.range, Effect-IsParted n place.register false false true p.state s f parted),
            inl (refl, refl, f),
          )
          | inr (error, s, e, within', parted') ↦
              (record p { state = s; error = true }, rw (t, e) refl, (within', parted'), inr refl)
        ]

  access_in :
      (p : Pass) (a : Access) → IsSound n p.state → IsNamed n a → Accessed p a (access vars p a)
  unfolding access
  access_in p (used place) (within, parted) h =
      elim (use_effect n p.state place.register within h parted place.at_node) [
        | inl (s, e, nd, f) ↦ (
          record p { state = s; error = p.error || false },
          rw e refl,
          (f.range, Effect-IsParted n place.register true false false p.state s f parted),
          inl (ground arith, nd, f),
        )
        | inr (e, dead) ↦
            (record p { error = p.error || true }, rw e refl, (within, parted), inr (ground arith))
      ]
  access_in p (killed place) (within, parted) h =
      elim (kill_effect n p.state place.register within h parted) [
        | inl (s, e, nd, f) ↦ (
          record p { state = s; error = p.error || false },
          rw e refl,
          (f.range, Effect-IsParted n place.register true true false p.state s f parted),
          inl (ground arith, nd, f),
        )
        | inr (e, dead) ↦
            (record p { error = p.error || true }, rw e refl, (within, parted), inr (ground arith))
      ]
  access_in p (defined place) sound h = define_in p place sound h
  access_in p (referenced source place) sound (hs, h) =
      elim (Bool-cases (has vars source.register)) [
        | inl var ↦ rw (test_in vars source.register (omega arith), var) (define_in p place sound h)
        | inr ssa ↦ (
          record p { error = true },
          rw (test_in vars source.register (omega arith), ssa) refl,
          sound,
          inr refl,
        )
      ]

  -- The sets behind the accesses, by the sets before them.
  pub record Sets (p q : Pass) (rest : List Access) (r : ℕ) : Type 0 where
    pub in_has : has q.state.live_in r ≡ (
        has p.state.live_in r
        || (not (has p.state.live_out r) && (not (has p.state.dead r) && reads_first rest r)))
    pub out_has : has q.state.live_out r ≡ ends_live (has p.state.live_out r) rest r
    pub dead_has : has q.state.dead r ≡ ends_dead (has p.state.dead r) rest r
    pub defd_has : has q.state.defd r ≡ (has p.state.defd r || defines_any rest r)

  abbrev Traversed : Pass → List Access → Option Pass → Type 0
  Traversed p rest o =
      (q : Pass) × (o ≡ some q)
      × IsSound n q.state
      × ((p.error ≡ true → q.error ≡ true))
      × (q.error ≡ false → (r : ℕ) → r < n → Sets p q rest r)

  Sets-cons :
      (p q z : Pass) (a : Access) (rest : List Access) (r : ℕ)
      → r < n
      → (reads a && has p.state.dead (target a)) ≡ false
      → Effect n (target a) (reads a) (kills a) (not (reads a)) p.state q.state
      → Sets q z rest r
      → Sets p z (a ∷ rest) r
  Sets-cons p q z a rest r k nd f s = elim (Bool-cases (target a == r)) [
    | inl here ↦
        let same : target a ≡ r = ground arith in
        let alive : (reads a && has p.state.dead r) ≡ false =
          sym (ap (λ y. reads a && has p.state.dead y) same) ∙ nd in
        record {
          in_has = ground (arith, s.in_has, f.in_has r k, f.out_has r k, f.dead_has r k);
          out_has = rw (s.out_has, f.out_has r k, here) refl;
          dead_has = rw (s.dead_has, f.dead_has r k, here) refl;
          defd_has = ground (arith, s.defd_has, f.defd_has r k);
        }
    | inr there ↦ record {
      in_has = ground (arith, s.in_has, f.in_has r k, f.out_has r k, f.dead_has r k);
      out_has = rw (s.out_has, f.out_has r k, there) refl;
      dead_has = rw (s.dead_has, f.dead_has r k, there) refl;
      defd_has = ground (arith, s.defd_has, f.defd_has r k);
    }
  ]

  pub traverse_in :
      (p : Pass) (rest : List Access)
      → IsSound n p.state
      → All (IsNamed n) rest
      → Traversed p rest (traverse vars p rest)
  unfolding traverse
  traverse_in p [] sound h = (
    p,
    refl,
    sound,
    λ e. e,
    λ e r k. record {
      in_has = ground arith;
      out_has = refl;
      dead_has = refl;
      defd_has = ground arith;
    },
  )
  traverse_in p (a ∷ rest) sound h =
      let (q, e, sound', left) = access_in p a sound h.0 in
      let (z, e', sound'', sticks, sets) = traverse_in q rest sound' h.1 in
      elim left [
        | inr failed ↦ (
          z,
          rw e e',
          sound'',
          λ before. sticks failed,
          λ fine r k. absurd (let bad = sticks failed in cc),
        )
        | inl (same, nd, f) ↦ (
          z,
          rw e e',
          sound'',
          λ before. sticks (same ∙ before),
          λ fine r k. Sets-cons p q z a rest r k nd f (sets fine r k),
        )
      ]
