-- ===== src/Literals/Escapes.antt =====
-- Escape sequences: `parse_number` and `unescape` of virc/support/literals.cc, on bytes. The returned
-- string that starts with "error:" is `bad`.
pub mod Plain
pub mod Tests
use verona_bc.Prelude.{
  ℕ, zero, suc, ◌+◌, ◌-◌, ◌*◌, ◌%◌, ◌^◌, ◌≡◌, Bool, true, false, not, ◌&&◌, ◌||◌, Option, none,
  some, List, [], ◌∷◌, ◌++◌, leb, ◌==◌, if◌then◌else◌, get_elem?, drop, length, arith, refl, ap,
  All, sym, ◌∙◌, length-append, ◌≤◌, get_elem?_past,
}
use verona_bc.Literals.{append_utf8}

pub is_digit : ℕ → Bool
is_digit c = leb 48 c && leb c 57

pub is_xdigit : ℕ → Bool
unfolding is_digit
is_xdigit c = is_digit c || (leb 65 c && leb c 70) || (leb 97 c && leb c 102)

-- `tolower(c) - 'a' + 10` for a letter.
pub digit_value : ℕ → ℕ
unfolding is_digit
digit_value c = if is_digit c then c - 48 else if leb 97 c then c - 87 else c - 55

-- The loop over the bytes from index `i` on: the value, the number of digits and the index.
pub digits_from : ℕ → ℕ → List ℕ → ℕ → ℕ → ℕ → ℕ × ℕ × ℕ
digits_from base max_len [] i v len = (v, len, i)
digits_from base max_len (c ∷ cs) i v len =
    let d = digit_value c in
    let v' = (v * base + d) % 2 ^ 32 in
    let rest = digits_from base max_len cs (i + 1) v' (len + 1) in
    if not (is_xdigit c)
    then (v, len, i)
    else if leb base d
    then (v, len, i)
    else if len + 1 == max_len
    then (v', len + 1, i)
    else rest

-- The value, with the index that the loop leaves.
pub parse_number : List ℕ → ℕ → ℕ → ℕ → Bool → ℕ × ℕ
unfolding digits_from
parse_number s i base max_len exact =
    let r = digits_from base max_len (drop i s) i 0 0 in
    if r.1 == 0 || (exact && not (r.1 == max_len)) then (2 ^ 32 - 1, r.2) else (r.0, r.2)

pub data Unescaped : Type 0 where
  text : List ℕ → Unescaped
  bad : Unescaped

-- The escapes of one letter.
pub simple_escape : ℕ → Option ℕ
simple_escape c =
    if c == 97
    then some 7
    else if c == 98
    then some 8
    else if c == 102
    then some 12
    else if c == 110
    then some 10
    else if c == 114
    then some 13
    else if c == 116
    then some 9
    else if c == 118
    then some 11
    else if c == 92 || c == 39 || c == 34 || c == 63
    then some c
    else none

-- The number that the escape at index `i`, of letter `c`, stands for, and the index behind.
pub numeric_escape : List ℕ → ℕ → ℕ → Option (ℕ × ℕ)
numeric_escape s i c =
    if leb 48 c && leb c 55
    then some (parse_number s i 8 3 false)
    else if c == 120
    then some (parse_number s (i + 1) 16 0 false)
    else if c == 117
    then some (parse_number s (i + 1) 16 4 true)
    else if c == 85
    then some (parse_number s (i + 1) 16 8 true)
    else none

-- One `switch`: the new output, and the index that `i++` then moves on.
pub escape : List ℕ → ℕ → ℕ → List ℕ → Option (List ℕ × ℕ)
escape s i c out = elim (simple_escape c) [
  | some b ↦ some (out ++ (b ∷ []), i)
  | none ↦ elim (numeric_escape s i c) [
    | none ↦ none
    | some r ↦ elim (append_utf8 r.0 out) [ none ↦ none | some out' ↦ some (out', r.1) ]
  ]
]

-- The index grows in every round, so `fuel` rounds are enough for as many bytes.
pub unescape_loop : ℕ → List ℕ → ℕ → List ℕ → Unescaped
unescape_loop zero s i out = text out
unescape_loop (suc fuel) s i out = elim (get_elem? s i) [
  | none ↦ text out
  | some c ↦
      if c == 92
      then elim (get_elem? s (i + 1)) [
        | none ↦ bad
        | some e ↦ elim (escape s (i + 1) e out) [
          | none ↦ bad
          | some r ↦ unescape_loop fuel s (r.1 + 1) r.0
        ]
      ]
      else unescape_loop fuel s (i + 1) (out ++ (c ∷ []))
]

pub unescape : List ℕ → Unescaped
unfolding unescape_loop
unescape s = unescape_loop (length s) s 0 []

is_xdigit-lt : (c : ℕ) → is_xdigit c ≡ true → leb 16 (digit_value c) ≡ false
unfolding is_xdigit is_digit digit_value
is_xdigit-lt c h = ground arith

-- A hexadecimal number of any length ends at the first byte that is no digit.
digits_from-append :
    (ds : List ℕ) (c i v len : ℕ)
    → All (λ d. is_xdigit d ≡ true) ds
    → is_xdigit c ≡ false
    → (digits_from 16 0 (ds ++ (c ∷ [])) i v len ≡ digits_from 16 0 ds i v len)
      × ((digits_from 16 0 ds i v len).2 ≡ i + length ds)
unfolding digits_from
digits_from-append [] c i v len h n = (rw n refl, omega arith)
digits_from-append (d ∷ ds) c i v len h n =
    let next =
      digits_from-append ds c (i + 1) ((v * 16 + digit_value d) % 2 ^ 32) (len + 1) h.1 n in
    let more : (len + 1 == 0) ≡ false = ground arith in
    (
      rw (h.0, is_xdigit-lt d h.0, more) next.0,
      rw (h.0, is_xdigit-lt d h.0, more) (omega (arith, next.1)),
    )

whole : Option (List ℕ) → Unescaped
whole none = bad
whole (some out) = text out

past_end :
    (fuel : ℕ) (s out : List ℕ) (i : ℕ) → length s ≤ i → unescape_loop (suc fuel) s i out ≡ text out
unfolding unescape_loop
past_end fuel s out i h = rw (get_elem?_past s i h, unescape_loop) refl

escape_hex :
    (tl : List ℕ) (p : ℕ × ℕ) (o : Option (List ℕ))
    → parse_number (92 ∷ 120 ∷ tl) 2 16 0 false ≡ p
    → append_utf8 p.0 [] ≡ o
    → escape (92 ∷ 120 ∷ tl) 1 120 [] ≡ elim o [ none ↦ none | some out ↦ some (out, p.1) ]
unfolding escape numeric_escape simple_escape
escape_hex tl p none e n =
    let n' : append_utf8 (parse_number (92 ∷ 120 ∷ tl) 2 16 0 false).0 [] ≡ none =
      ap (λ t. append_utf8 t.0 []) e ∙ n in
    rw (n', escape) refl
escape_hex tl p (some out) e n =
    let n' : append_utf8 (parse_number (92 ∷ 120 ∷ tl) 2 16 0 false).0 [] ≡ some out =
      ap (λ t. append_utf8 t.0 []) e ∙ n in
    rw (n', escape) (ap (λ t. some (out, t.1)) e)

hex_only :
    (fuel : ℕ) (tl : List ℕ) (p : ℕ × ℕ) (o : Option (List ℕ))
    → parse_number (92 ∷ 120 ∷ tl) 2 16 0 false ≡ p
    → append_utf8 p.0 [] ≡ o
    → length tl + 2 ≤ p.1 + 1
    → unescape_loop (suc (suc fuel)) (92 ∷ 120 ∷ tl) 0 [] ≡ whole o
unfolding unescape_loop whole
hex_only fuel tl p none e n h = let e' = escape_hex tl p none e n in rw e' refl
hex_only fuel tl p (some out) e n h =
    let e' = escape_hex tl p (some out) e n in
    rw e' (past_end fuel (92 ∷ 120 ∷ tl) out (p.1 + 1) (omega arith))

parse_number-append :
    (ds : List ℕ) (c : ℕ)
    → All (λ d. is_xdigit d ≡ true) ds
    → is_xdigit c ≡ false
    → (parse_number (92 ∷ 120 ∷ (ds ++ (c ∷ []))) 2 16 0 false
        ≡ parse_number (92 ∷ 120 ∷ ds) 2 16 0 false)
      × ((parse_number (92 ∷ 120 ∷ ds) 2 16 0 false).1 ≡ 2 + length ds)
unfolding parse_number
parse_number-append ds c h n =
    let run = digits_from-append ds c 2 0 0 h n in (rw run.0 refl, ground (arith, run.1))

-- A byte behind a hexadecimal escape that is itself no digit is lost: at the end of a literal, the
-- escape with the byte gives what the escape without it gives.
pub unescape_loses :
    (ds : List ℕ) (c : ℕ)
    → All (λ d. is_xdigit d ≡ true) ds
    → is_xdigit c ≡ false
    → unescape (92 ∷ 120 ∷ (ds ++ (c ∷ []))) ≡ unescape (92 ∷ 120 ∷ ds)
unfolding unescape
unescape_loses ds c h n =
    let run = parse_number-append ds c h n in
    let size = length-append ds (c ∷ []) in
    hex_only (length (ds ++ (c ∷ []))) (ds ++ (c ∷ [])) _ _ run.0 refl (omega (arith, run.1, size))
    ∙ sym (hex_only (length ds) ds _ _ refl refl (omega (arith, run.1)))
