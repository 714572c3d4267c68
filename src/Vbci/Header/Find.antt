-- ===== src/Vbci/Header/Find.antt =====
-- `find` gives the root of a chain of SCC pointers, and path compression keeps every root.
use verona_bc.Prelude.{
  ℕ, zero, suc, ◌%◌, ◌^◌, ◌<◌, ◌≤◌, ◌≡◌, ◌≢◌, true, false, Option, some, ◌==◌, refl, sym, ap, ◌∙◌,
  arith, Bool-cases, inl, inr,
}
use verona_bc.Vbci.Location.{is_scc_ptr, scc_ptr, scc_target}
use verona_bc.Vbci.Location.Tags.{scc_ptr-aligned, scc_target-aligned, scc_ptr-target}
use verona_bc.Vbci.Header.{Header, set_location, point_to, find}

-- The SCC pointers from `h` lead to `r`, which has none.
pub data IsRootOf (headers : ℕ → Header) (r : ℕ) : ℕ → Type 0 where
  here : is_scc_ptr (headers r).loc ≡ false → IsRootOf headers r r
  along :
      {h t : ℕ}
      → is_scc_ptr (headers h).loc ≡ true
      → scc_target (headers h).loc ≡ some t
      → IsRootOf headers r t
      → IsRootOf headers r h

-- Locations are words, and SCC pointers go to a smaller depth.
pub record IsLinked (depth : ℕ → ℕ) (headers : ℕ → Header) : Type 0 where
  pub word : (h : ℕ) → (headers h).loc < 2 ^ 64
  pub deeper :
      (h t : ℕ)
      → is_scc_ptr (headers h).loc ≡ true
      → scc_target (headers h).loc ≡ some t
      → depth t < depth h

IsRootOf-top :
    (headers : ℕ → Header) (r h : ℕ) → IsRootOf headers r h → is_scc_ptr (headers r).loc ≡ false
IsRootOf-top headers r h (here top) = top
IsRootOf-top headers r h (along p t way) = IsRootOf-top headers r _ way

-- There is one root.
IsRootOf-unique :
    (headers : ℕ → Header) (r r' h : ℕ) → IsRootOf headers r h → IsRootOf headers r' h → r ≡ r'
IsRootOf-unique headers r r' h (here top) (here top') = refl
IsRootOf-unique headers r r' h (here top) (along p t way) = cc
IsRootOf-unique headers r r' h (along p t way) (here top) = cc
IsRootOf-unique headers r r' h (along {t = a} p t way) (along {t = b} p' t' way') =
    let same : b ≡ a = cc in IsRootOf-unique headers r r' a way (rw same at way')

-- The root of a target is a word, aligned.
IsRootOf-aligned :
    (depth : ℕ → ℕ) (headers : ℕ → Header) (r h t : ℕ)
    → IsLinked depth headers
    → scc_target (headers h).loc ≡ some t
    → IsRootOf headers r t
    → (r % 8 ≡ 0) × (r < 2 ^ 64)
IsRootOf-aligned depth headers r h t w e (here top) =
    scc_target-aligned (headers h).loc r (w.word h) e
IsRootOf-aligned depth headers r h t w e (along p t' way) =
    IsRootOf-aligned depth headers r t _ w t' way

loc_here : (headers : ℕ → Header) (h l : ℕ) → (set_location headers h l h).loc ≡ l
loc_here headers h l = ground arith

loc_other :
    (headers : ℕ → Header) (h l x : ℕ) → x ≢ h → (set_location headers h l x).loc ≡ (headers x).loc
loc_other headers h l x apart = ground arith

kept_top :
    (headers : ℕ → Header) (h l x : ℕ)
    → is_scc_ptr (headers h).loc ≡ true
    → is_scc_ptr (headers x).loc ≡ false
    → is_scc_ptr (set_location headers h l x).loc ≡ false
kept_top headers h l x ptr top =
    let apart : x ≢ h = λ i. (let top' = rw i at top in cc) in
    ap is_scc_ptr (loc_other headers h l x apart) ∙ top

-- Path compression of `h`, whose root is `r`.
compressed :
    (headers : ℕ → Header) (h r : ℕ)
    → r % 8 ≡ 0
    → r < 2 ^ 64
    → is_scc_ptr (headers h).loc ≡ true
    → is_scc_ptr (headers r).loc ≡ false
    → IsRootOf (set_location headers h (scc_ptr r)) r h
compressed headers h r al small ptr top =
    let (tag, target) = scc_ptr-aligned r al small in
    along (ap is_scc_ptr (loc_here headers h (scc_ptr r)) ∙ tag)
      (ap scc_target (loc_here headers h (scc_ptr r)) ∙ target)
      (here (kept_top headers h (scc_ptr r) r ptr top))

set_location-IsRootOf :
    (headers : ℕ → Header) (h r : ℕ)
    → r % 8 ≡ 0
    → r < 2 ^ 64
    → is_scc_ptr (headers h).loc ≡ true
    → IsRootOf headers r h
    → (q x : ℕ) → IsRootOf headers q x
    → IsRootOf (set_location headers h (scc_ptr r)) q x
set_location-IsRootOf headers h r al small ptr way q x (here top) =
    here (kept_top headers h (scc_ptr r) q ptr top)
set_location-IsRootOf headers h r al small ptr way q x (along {t = t} p e rest) =
    elim (Bool-cases (x == h)) [
      | inl same ↦
          let i : x ≡ h = ground arith in
          let all : IsRootOf headers q x = along p e rest in
          let root = IsRootOf-unique headers q r h (rw i at all) way in
          rw (i, root) (compressed headers h r al small ptr (IsRootOf-top headers r h way))
      | inr other ↦
          let apart : x ≢ h = ground arith in
          let l = loc_other headers h (scc_ptr r) x apart in
          along (ap is_scc_ptr l ∙ p) (ap scc_target l ∙ e)
            (set_location-IsRootOf headers h r al small ptr way q t rest)
    ]

-- What `find` has done: `r` is the root of `h`, every header has the root that it had, and the links are
-- as before but for shorter ways.
abbrev pub Finds : (ℕ → Header) → ℕ → Option (ℕ × (ℕ → Header)) → Type 0
Finds headers h o =
    (r : ℕ) × (headers' : ℕ → Header) × (o ≡ some (r, headers'))
    × IsRootOf headers r h
    × ((q x : ℕ) → IsRootOf headers q x → IsRootOf headers' q x)

find-ptr :
    (fuel : ℕ) (headers : ℕ → Header) (h t : ℕ) (found : ℕ × (ℕ → Header))
    → is_scc_ptr (headers h).loc ≡ true
    → scc_target (headers h).loc ≡ some t
    → find fuel headers t ≡ some found
    → find (suc fuel) headers h ≡ some (point_to h t found)
unfolding find
find-ptr fuel headers h t found p e run = rw (find, p, e, run) refl

IsRootOf-depth :
    (depth : ℕ → ℕ) (headers : ℕ → Header) (r h : ℕ)
    → IsLinked depth headers
    → IsRootOf headers r h
    → depth r ≤ depth h
IsRootOf-depth depth headers r h w (here top) = omega arith
IsRootOf-depth depth headers r h w (along {t = t} p e way) =
    omega (arith, w.deeper h t p e, IsRootOf-depth depth headers r t w way)

-- A header with another root has an SCC pointer.
still_ptr :
    (headers : ℕ → Header) (h r : ℕ)
    → h ≢ r
    → IsRootOf headers r h
    → is_scc_ptr (headers h).loc ≡ true
still_ptr headers h r apart (here top) = absurd (apart refl)
still_ptr headers h r apart (along p e way) = p

-- The root from the target, and the pointer to it.
find-IsRootOf_step :
    (depth : ℕ → ℕ) (fuel : ℕ) (headers : ℕ → Header) (h t : ℕ)
    → IsLinked depth headers
    → is_scc_ptr (headers h).loc ≡ true
    → scc_target (headers h).loc ≡ some t
    → Finds headers t (find fuel headers t)
    → Finds headers h (find (suc fuel) headers h)
find-IsRootOf_step depth fuel headers h t w p e (r, headers', run, way, keeps) =
    let run' = find-ptr fuel headers h t (r, headers') p e run in
    let all : IsRootOf headers' r h = keeps r h (along p e way) in
    let aligned = IsRootOf-aligned depth headers r h t w e way in
    let apart : h ≢ r = λ i.
      (let j0 : depth r ≤ depth t = IsRootOf-depth depth headers r t w way in
        let j : depth h ≤ depth t = rw (sym i) at j0 in omega (arith, w.deeper h t p e)) in
    let pointer = still_ptr headers' h r apart all in
    elim (Bool-cases (r == t)) [
      | inl same ↦ (r, headers', run' ∙ rw same refl, along p e way, keeps)
      | inr other ↦ (
        r,
        set_location headers' h (scc_ptr r),
        run' ∙ rw other refl,
        along p e way,
        λ q x old.
            set_location-IsRootOf headers' h r aligned.0 aligned.1 pointer all q x (keeps q x old),
      )
    ]

-- Where SCC pointers go to a smaller depth and locations are words: with fuel above the depth of `h`, `find` returns the
-- root of `h`, the one header at the end of its SCC pointers, and in the headers that path compression leaves
-- every header still has the root that it had.
pub find-IsRootOf :
    (depth : ℕ → ℕ) (fuel : ℕ) (headers : ℕ → Header) (h : ℕ)
    → depth h < fuel
    → IsLinked depth headers
    → (r : ℕ) × (headers' : ℕ → Header) × (find fuel headers h ≡ some (r, headers'))
      × IsRootOf headers r h
      × ((q x : ℕ) → IsRootOf headers q x → IsRootOf headers' q x)
unfolding find
find-IsRootOf depth zero headers h l w = absurd (omega arith)
find-IsRootOf depth (suc fuel) headers h l w = elim (Bool-cases (is_scc_ptr (headers h).loc)) [
  | inr top ↦ (h, headers, rw top refl, here top, λ q x old. old)
  | inl p ↦
      let (t, e) = scc_ptr-target (headers h).loc p in
      find-IsRootOf_step depth fuel headers h t w p e
        (find-IsRootOf depth fuel headers t (omega (arith, w.deeper h t p e)) w)
]
