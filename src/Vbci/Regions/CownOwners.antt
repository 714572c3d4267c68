-- ===== src/Vbci/Regions/CownOwners.antt =====
-- `set_cown_owner` and `clear_cown_owner`: the counts when a cown owns a region, and when it gives it up.
use verona_bc.Prelude.{
  ℕ, ◌<◌, ◌≡◌, ◌≢◌, ◌⊎◌, inl, inr, false, Option, none, some, ◌∷◌, ◌==◌, if◌then◌else◌, refl, ◌∙◌,
  arith, Bool-cases,
}
use verona_bc.Vbci.Regions.{
  Owner, unowned, child_of, owned_by, Store, set_owner, free_region, set_cown_owner,
  clear_cown_owner, has_owner,
}
use verona_bc.Vbci.Regions.Forest.{is_child, IsBalanced, IsForest, IsOwed-IsBalanced}
use verona_bc.Vbci.Regions.Owners.{
  IsOwnedBy, IsForest-owner, owner_change, new_owner, old_owner, depth_owner, no_parent,
  no_parent_cown,
}

cown_owner :
    (n : ℕ) (rank : ℕ → ℕ) (s : Store) (q : ℕ) (e : ℕ → ℕ) (o : Owner) (entry : Option ℕ)
    → q < n
    → ((x : ℕ) → is_child (s.regions q).owner x ≡ 0)
    → ((x : ℕ) → is_child o x ≡ 0)
    → ((p : ℕ) → o ≢ child_of p)
    → IsForest n rank s
    → IsBalanced n s e
    → IsOwnedBy n rank e q o s (set_owner s q o entry)
cown_owner n rank s q e o entry lq old new apart f b = (
  IsOwed-IsBalanced n (set_owner s q o entry) e
      (owner_change n s q o entry (λ x. 0) e e lq b (λ x. ground (arith, old x, new x))),
  IsForest-owner n rank s q o entry f (λ p h. absurd (apart p h)),
  new_owner n s q o entry,
  old_owner n s q o entry,
  depth_owner n s q o entry,
)

-- A region without an owner gets a cown as its owner: in a balanced forest `set_cown_owner` succeeds, and
-- the forest is balanced for the same outside counts.
pub set_cown_owner-IsBalanced :
    (n : ℕ) (rank : ℕ → ℕ) (s : Store) (q c entry : ℕ) (e : ℕ → ℕ)
    → q < n
    → (s.regions q).owner ≡ unowned
    → IsForest n rank s
    → IsBalanced n s e
    → (s' : Store) × (set_cown_owner s q c entry ≡ some s')
      × IsOwnedBy n rank e q (owned_by c) s s'
      × (s'.freed ≡ s.freed)
unfolding set_cown_owner
set_cown_owner-IsBalanced n rank s q c entry e lq own f b =
    let bare : has_owner (s.regions q) ≡ false = rw own refl in
    (
      set_owner s q (owned_by c) (some entry),
      rw bare refl,
      cown_owner n rank s q e (owned_by c) (some entry) lq (λ x. rw own refl) (λ x. refl)
          (no_parent_cown c) f b,
      refl,
    )

clear-cown :
    (s : Store) (q c : ℕ)
    → (s.regions q).owner ≡ owned_by c
    → clear_cown_owner s q
      ≡ some (
          let s' = set_owner s q unowned none in
          if (s.regions q).stack_rc == 0 then free_region s' q else s')
unfolding clear_cown_owner
clear-cown s q c own = rw (clear_cown_owner, own) refl

-- A region loses the cown that owns it: in a balanced forest `clear_cown_owner` succeeds, the forest is
-- balanced for the same outside counts, and the region is freed exactly if it is not in use.
pub clear_cown_owner-IsBalanced :
    (n : ℕ) (rank : ℕ → ℕ) (s : Store) (q c : ℕ) (e : ℕ → ℕ)
    → q < n
    → (s.regions q).owner ≡ owned_by c
    → IsForest n rank s
    → IsBalanced n s e
    → (s' : Store) × (clear_cown_owner s q ≡ some s')
      × IsOwnedBy n rank e q unowned s s'
      × ((((s.regions q).stack_rc ≡ 0) × (s'.freed ≡ q ∷ s.freed))
          ⊎ ((0 < (s.regions q).stack_rc) × (s'.freed ≡ s.freed)))
clear_cown_owner-IsBalanced n rank s q c e lq own f b =
    let s1 = set_owner s q unowned none in
    let kept =
      cown_owner n rank s q e unowned none lq (λ x. rw own refl) (λ x. refl) (λ p h. no_parent p h)
        f b in
    elim (Bool-cases ((s.regions q).stack_rc == 0)) [
      | inl idle ↦ (
        free_region s1 q,
        clear-cown s q c own ∙ rw idle refl,
        (kept.0, kept.1, kept.2, kept.3, kept.4),
        inl (ground arith, refl),
      )
      | inr used ↦ (s1, clear-cown s q c own ∙ rw used refl, kept, inr (ground arith, refl))
    ]
