-- ===== src/Vbci/Header/Tests.antt =====
-- Tests of the headers: three in a chain, 24 to 16 to 8, and 8 is immutable.
use verona_bc.Prelude.{
  ℕ, ◌<◌, ◌≡◌, true, false, Option, none, some, ◌==◌, if◌then◌else◌, refl, arith, inl, inr,
  Bool-cases,
}
use verona_bc.Vbci.Location.{is_scc_ptr, scc_target, scc_ptr}
use verona_bc.Vbci.Header.{Header, find}
use verona_bc.Vbci.Header.Find.{IsRootOf, IsLinked, find-IsRootOf}

abbrev chain : ℕ → Header
chain h =
    if h == 24
    then record { loc = 21; type_id = 0 }
    else if h == 16
    then record { loc = 13; type_id = 0 }
    else record { loc = 2; type_id = 0 }

abbrev location_of : Option (ℕ × (ℕ → Header)) → ℕ → ℕ
location_of none h = 0
location_of (some found) h = (found.1 h).loc

-- Path compression: 24 points to 8 at once.
compresses : location_of (find 30 chain 24) 24 ≡ 13
unfolding find scc_target scc_ptr
compresses = refl

abbrev depth : ℕ → ℕ
depth h = h

chain-deeper :
    (h t : ℕ) → is_scc_ptr (chain h).loc ≡ true → scc_target (chain h).loc ≡ some t → t < h
unfolding scc_target
chain-deeper h t p e = elim (Bool-cases (h == 24)) [
  | inl last ↦
      let i : h ≡ 24 = ground arith in
      let e' : some 16 ≡ some t = rw i at e in let j : 16 ≡ t = cc in omega arith
  | inr other ↦ elim (Bool-cases (h == 16)) [
    | inl middle ↦
        let i : h ≡ 16 = ground arith in
        let e' : some 8 ≡ some t = rw i at e in let j : 8 ≡ t = cc in omega arith
    | inr rest ↦
        let l : (chain h).loc ≡ 2 = rw (other, rest) refl in let p' : false ≡ true = rw l at p in cc
  ]
]

chain-IsLinked : IsLinked depth chain
chain-IsLinked = record { word = λ h. ground arith; deeper = chain-deeper }

find-IsRootOf_example :
    (r : ℕ) × (headers' : ℕ → Header) × (find 30 chain 24 ≡ some (r, headers'))
    × IsRootOf chain r 24
    × ((q x : ℕ) → IsRootOf chain q x → IsRootOf headers' q x)
find-IsRootOf_example = find-IsRootOf depth 30 chain 24 (omega arith) chain-IsLinked
