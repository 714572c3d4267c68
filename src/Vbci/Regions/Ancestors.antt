-- ===== src/Vbci/Regions/Ancestors.antt =====
-- `is_ancestor_of` and `sendable`: what they answer of a forest.
use verona_bc.Prelude.{
  ℕ, zero, suc, ◌+◌, ◌<◌, ◌≡◌, ◌≢◌, ◌⊎◌, inl, inr, true, false, some, ◌==◌, if◌then◌else◌, refl,
  sym, ap, ◌∙◌, arith, Bool-cases,
}
use verona_bc.Vbci.Regions.{unowned, child_of, owned_by, Store, has_owner, is_ancestor_of, sendable}
use verona_bc.Vbci.Regions.Forest.{active_children, IsBalanced, IsForest, Owner-cases}
use verona_bc.Vbci.Regions.Owners.{child_of_inj, no_parent, no_parent_cown}

-- Region `a` is the parent of `r`, or an ancestor of the parent.
pub data IsAncestor (s : Store) (a : ℕ) : ℕ → Type 0 where
  parent : {r : ℕ} → (s.regions r).owner ≡ child_of a → IsAncestor s a r
  above : {r p : ℕ} → (s.regions r).owner ≡ child_of p → IsAncestor s a p → IsAncestor s a r

-- The way to an ancestor starts with the parent.
by_parent :
    (s : Store) (a r : ℕ)
    → IsAncestor s a r
    → (p : ℕ) × ((s.regions r).owner ≡ child_of p) × ((p ≡ a) ⊎ IsAncestor s a p)
by_parent s a r (parent own) = (a, own, inl refl)
by_parent s a r (above own h) = (_, own, inr h)

ancestor-step :
    (fuel : ℕ) (s : Store) (a r p : ℕ)
    → (s.regions r).owner ≡ child_of p
    → is_ancestor_of (suc fuel) s a r ≡ (if p == a then some true else is_ancestor_of fuel s a p)
unfolding is_ancestor_of
ancestor-step fuel s a r p own = rw (is_ancestor_of, own) refl

ancestor-root :
    (fuel : ℕ) (s : Store) (a r : ℕ)
    → ((s.regions r).owner ≡ unowned) ⊎ ((c : ℕ) × ((s.regions r).owner ≡ owned_by c))
    → is_ancestor_of (suc fuel) s a r ≡ some false
unfolding is_ancestor_of
ancestor-root fuel s a r (inl own) = rw (is_ancestor_of, own) refl
ancestor-root fuel s a r (inr (c, own)) = rw (is_ancestor_of, own) refl

-- With fuel above the rank of `r` in a forest, `is_ancestor_of` answers, and the answer is true exactly if
-- `a` is an ancestor of `r`.
pub is_ancestor_of-IsAncestor :
    (n : ℕ) (rank : ℕ → ℕ) (fuel : ℕ) (s : Store) (a r : ℕ)
    → r < n
    → rank r < fuel
    → IsForest n rank s
    → ((is_ancestor_of fuel s a r ≡ some true) × IsAncestor s a r)
      ⊎ ((is_ancestor_of fuel s a r ≡ some false) × ¬ IsAncestor s a r)
is_ancestor_of-IsAncestor n rank zero s a r lr lf f = absurd (omega arith)
is_ancestor_of-IsAncestor n rank (suc fuel) s a r lr lf f = elim (Owner-cases (s.regions r).owner) [
  | inl (p, own) ↦
      let up = f r p lr own in
      let rec = is_ancestor_of-IsAncestor n rank fuel s a p up.0 (omega (arith, up.1)) f in
      elim (Bool-cases (p == a)) [
        | inl here ↦
            let same : p ≡ a = ground arith in
            inl (ancestor-step fuel s a r p own ∙ rw here refl, parent (rw same at own))
        | inr there ↦
            let apart : p ≢ a = ground arith in
            elim rec [
              | inl (run, h) ↦ inl (ancestor-step fuel s a r p own ∙ rw there run, above own h)
              | inr (run, never) ↦ inr (
                ancestor-step fuel s a r p own ∙ rw there run,
                λ h.
                    (let (p', own', k) = by_parent s a r h in
                      let e = child_of_inj p' p (sym own' ∙ own) in
                      elim k [ inl i ↦ apart (sym e ∙ i) | inr i ↦ never (rw e at i) ]),
              )
            ]
      ]
  | inr alone ↦ inr (
    ancestor-root fuel s a r alone,
    λ h.
        (let (p, own, k) = by_parent s a r h in
          elim alone [
            | inl bare ↦ no_parent p (sym bare ∙ own)
            | inr (c, cown) ↦ no_parent_cown c p (sym cown ∙ own)
          ]),
  )
]

unowned_not_cown : (c : ℕ) → unowned ≡ owned_by c → ⊥
unowned_not_cown c h =
    let no = ap {B = ℕ} (λ o. elim o [ owned_by x ↦ 1 | _ ↦ 0 ]) h in ground arith

-- Of a region on the heap that is in use, in a balanced forest, `sendable` is true exactly if the region has
-- no owner, and its only reference is one from outside or one child in use.
pub sendable-IsBalanced :
    (n : ℕ) (s : Store) (r : ℕ) (e : ℕ → ℕ)
    → r < n
    → (s.regions r).frame_depth ≡ 0
    → 0 < (s.regions r).stack_rc
    → IsBalanced n s e
    → ((sendable s r ≡ some true)
        × ((s.regions r).owner ≡ unowned)
        × (e r + active_children n s r ≡ 1))
      ⊎ ((sendable s r ≡ some false)
          × (((s.regions r).owner ≢ unowned) ⊎ (1 < e r + active_children n s r)))
unfolding sendable
sendable-IsBalanced n s r e lr heap used b =
    let live : ((s.regions r).stack_rc == 0) ≡ false = ground arith in
    elim (Owner-cases (s.regions r).owner) [
      | inl (p, own) ↦
          let taken : has_owner (s.regions r) ≡ true = rw own refl in
          inr (rw (live, taken) refl, inl (λ h. no_parent p (sym h ∙ own)))
      | inr (inr (c, own)) ↦
          let taken : has_owner (s.regions r) ≡ true = rw own refl in
          inr (rw (live, taken) refl, inl (λ h. unowned_not_cown c (sym h ∙ own)))
      | inr (inl own) ↦
          let free : has_owner (s.regions r) ≡ false = rw own refl in
          elim (Bool-cases ((s.regions r).stack_rc == 1)) [
            | inl one ↦ inl (rw (live, free, one) refl, own, ground (arith, b r lr heap))
            | inr more ↦ inr (rw (live, free, more) refl, inr (ground (arith, b r lr heap)))
          ]
    ]
