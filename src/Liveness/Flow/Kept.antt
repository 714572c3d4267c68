-- ===== src/Liveness/Flow/Kept.antt =====
-- What the merging of the first definitions and uses leaves of a label.
use verona_bc.Prelude.{
  ℕ, zero, suc, ◌+◌, ◌≤◌, ◌<◌, ◌≡◌, refl, ap, ◌∙◌, Bool, false, ◌||◌, Option, none, some, List, [],
  ◌∷◌, ◌==◌, arith, get_elem?, set, length, get_or, Bool-cases, Option-cases, inl, inr,
  get_elem?-eq-get_or, length-set,
}
use verona_bc.Bitset.{Bitset, make}
use verona_bc.Bitset.Laws.{has, capacity, IsWords, test_in}
use verona_bc.Bitset.Extensional.{capacity-make}
use verona_bc.Label.{LabelState}
use verona_bc.Liveness.Flow.{FlowLabel, merge_first_def, merge_first_use, merge_firsts}

abbrev pub blank_set : Bitset
blank_set = record { bits = [] }

abbrev pub blank : FlowLabel
blank = record {
  state = record {
    first_def = [];
    first_use = [];
    last_use = [];
    live_in = blank_set;
    defd = blank_set;
    dead = blank_set;
    live_out = blank_set;
    used = blank_set;
  };
  pred = [];
  succ = [];
}

-- Label `i`, and the registers of a set of it.
abbrev pub at : List FlowLabel → ℕ → FlowLabel
at labels i = get_or labels i blank

abbrev pub needs : List FlowLabel → ℕ → ℕ → Bool
needs labels i r = has (at labels i).state.live_in r

abbrev pub holds : List FlowLabel → ℕ → ℕ → Bool
holds labels i r = has (at labels i).state.live_out r

abbrev pub kills : List FlowLabel → ℕ → ℕ → Bool
kills labels i r = has (at labels i).state.dead r

abbrev pub is_in : ℕ → List ℕ → Bool
is_in x [] = false
is_in x (y ∷ ys) = x == y || is_in x ys

-- The vectors and sets of a label have the size of the function's registers.
pub record IsFit (n : ℕ) (s : LabelState) : Type 0 where
  pub first_def : length s.first_def ≡ n
  pub first_use : length s.first_use ≡ n
  pub live_in : capacity s.live_in ≡ capacity (make n)
  pub live_out : capacity s.live_out ≡ capacity (make n)
  pub dead : capacity s.dead ≡ capacity (make n)
  pub defd : capacity s.defd ≡ capacity (make n)
  pub in_words : IsWords s.live_in
  pub out_words : IsWords s.live_out

-- The sets of a label and its edges, without its nodes.
pub record Kept (s t : LabelState) : Type 0 where
  pub first_def : length t.first_def ≡ length s.first_def
  pub first_use : length t.first_use ≡ length s.first_use
  pub live_in : t.live_in ≡ s.live_in
  pub live_out : t.live_out ≡ s.live_out
  pub dead : t.dead ≡ s.dead
  pub defd : t.defd ≡ s.defd

pub Kept-refl : (s : LabelState) → Kept s s
Kept-refl s = record {
  first_def = refl;
  first_use = refl;
  live_in = refl;
  live_out = refl;
  dead = refl;
  defd = refl;
}

Kept-first_def :
    (s : LabelState) (v : List (Option ℕ))
    → length v ≡ length s.first_def
    → Kept s (record s { first_def = v })
Kept-first_def s v e = record {
  first_def = e;
  first_use = refl;
  live_in = refl;
  live_out = refl;
  dead = refl;
  defd = refl;
}

Kept-first_use :
    (s : LabelState) (v : List (Option ℕ))
    → length v ≡ length s.first_use
    → Kept s (record s { first_use = v })
Kept-first_use s v e = record {
  first_def = refl;
  first_use = e;
  live_in = refl;
  live_out = refl;
  dead = refl;
  defd = refl;
}

pub Kept-trans : (s t u : LabelState) → Kept s t → Kept t u → Kept s u
Kept-trans s t u a b = record {
  first_def = b.first_def ∙ a.first_def;
  first_use = b.first_use ∙ a.first_use;
  live_in = b.live_in ∙ a.live_in;
  live_out = b.live_out ∙ a.live_out;
  dead = b.dead ∙ a.dead;
  defd = b.defd ∙ a.defd;
}

pub Kept-IsFit : (n : ℕ) (s t : LabelState) → Kept s t → IsFit n s → IsFit n t
Kept-IsFit n s t k f = record {
  first_def = k.first_def ∙ f.first_def;
  first_use = k.first_use ∙ f.first_use;
  live_in = ap capacity k.live_in ∙ f.live_in;
  live_out = ap capacity k.live_out ∙ f.live_out;
  dead = ap capacity k.dead ∙ f.dead;
  defd = ap capacity k.defd ∙ f.defd;
  in_words = rw k.live_in f.in_words;
  out_words = rw k.live_out f.out_words;
}

pub at-elem :
    (labels : List FlowLabel) (i : ℕ) → i < length labels → get_elem? labels i ≡ some (at labels i)
at-elem labels i h = get_elem?-eq-get_or labels i blank h

module _ (l succ : LabelState) (r : ℕ) where
  merge_first_def_in :
      r < capacity succ.defd
      → r < length l.first_def
      → r < length succ.first_def
      → (m : LabelState) × (merge_first_def l succ r ≡ some m) × Kept l m
  merge_first_def_in h a b = elim (Bool-cases (has succ.defd r)) [
    | inr no_def ↦ (l, rw (test_in succ.defd r h, no_def) refl, Kept-refl l)
    | inl defines ↦ elim (Option-cases (get_or l.first_def r none)) [
      | inr (n, mine) ↦ (
        l,
        rw (test_in succ.defd r h, defines, get_elem?-eq-get_or l.first_def r none a, mine) refl,
        Kept-refl l,
      )
      | inl none_yet ↦ (
        record l { first_def = set l.first_def r (get_or succ.first_def r none) },
        rw
            (
              test_in succ.defd r h,
              defines,
              get_elem?-eq-get_or l.first_def r none a,
              none_yet,
              get_elem?-eq-get_or succ.first_def r none b,
            )
            refl,
        Kept-first_def l (set l.first_def r (get_or succ.first_def r none))
            (length-set l.first_def r (get_or succ.first_def r none)),
      )
    ]
  ]

  merge_first_use_in :
      r < length succ.first_use → (m : LabelState) × (merge_first_use l succ r ≡ some m) × Kept l m
  merge_first_use_in b = elim (Option-cases (get_or succ.first_use r none)) [
    | inl unused ↦ (l, rw (get_elem?-eq-get_or succ.first_use r none b, unused) refl, Kept-refl l)
    | inr (n, theirs) ↦ (
      record l { first_use = set l.first_use r (some n) },
      rw (get_elem?-eq-get_or succ.first_use r none b, theirs) refl,
      Kept-first_use l (set l.first_use r (some n)) (length-set l.first_use r (some n)),
    )
  ]

-- The loop over the registers does not throw, and keeps the sets of the label.
pub merge_firsts_in :
    (n count r : ℕ) (l succ : LabelState)
    → IsFit n l
    → IsFit n succ
    → r + count ≤ n
    → (m : LabelState) × (merge_firsts count r l succ ≡ some m) × Kept l m
unfolding merge_firsts
merge_firsts_in n zero r l succ f g h = (l, refl, Kept-refl l)
merge_firsts_in n (suc count) r l succ f g h =
    let size = capacity-make n in
    let (a, ea, ka) =
      merge_first_def_in l succ r (omega (arith, g.defd)) (omega (arith, f.first_def))
        (omega (arith, g.first_def)) in
    let (b, eb, kb) = merge_first_use_in a succ r (omega (arith, g.first_use)) in
    let kept = Kept-trans l a b ka kb in
    let (m, em, km) =
      merge_firsts_in n count (suc r) b succ (Kept-IsFit n l b kept f) g (omega arith) in
    (m, rw (ea, eb) em, Kept-trans l b m kept km)
