-- ===== src/Vbc/Sections/RoundTrip.antt =====
-- The loader reads back the string table, the function table and the class tables of the emitter.
use verona_bc.Prelude.{ℕ, ◌+◌, ◌^◌, ◌<◌, ◌≡◌, ◌≢◌, refl, List, [], ◌∷◌, ◌++◌, length, drop, All}
use verona_bc.Vbc.Reader.{parsed}
use verona_bc.Vbc.Leb.{put_uleb, uleb}
use verona_bc.Vbc.Sections.{
  put_counted, put_string, str, string_table, put_string_table, uleb32, Function, put_function,
  parse_function, read_labels, put_each,
}
use verona_bc.Vbc.Sections.Decodes.{
  Decodes, Decodes-bind, Decodes-map, Decodes-uleb, Decodes-uleb32, Decodes-counted, Decodes-str,
  Decodes-each,
}

pub Decodes-string_table :
    (ss : List (List ℕ))
    → length ss < 2 ^ 64
    → All (λ s. length s < 2 ^ 64) ss
    → Decodes string_table (put_string_table ss) ss
unfolding string_table put_string_table
Decodes-string_table ss n ok =
    Decodes-counted str put_string (λ s. length s < 2 ^ 64) Decodes-str ss n ok

-- Counts and offsets fit a size_t, type ids a uint32_t, and there is a label.
pub record IsFunction (f : Function) : Type 0 where
  pub registers_fit : f.registers < 2 ^ 64
  pub debug_info_fits : f.debug_info < 2 ^ 64
  pub params_fit : length f.param_types < 2 ^ 64
  pub param_types_fit : All (λ t. t < 2 ^ 32) f.param_types
  pub return_type_fits : f.return_type < 2 ^ 32
  pub vars_fit : length f.var_types < 2 ^ 64
  pub var_types_fit : All (λ t. t < 2 ^ 32) f.var_types
  pub labels_fit : length f.labels < 2 ^ 64
  pub label_pcs_fit : All (λ l. l < 2 ^ 64) f.labels
  pub has_label : f.labels ≢ []

Decodes-labels :
    (ls : List ℕ)
    → All (λ l. l < 2 ^ 64) ls
    → ls ≢ []
    → Decodes (read_labels (length ls)) (put_each put_uleb ls) ls
unfolding read_labels
Decodes-labels [] ok ne = absurd (ne refl)
Decodes-labels (l ∷ ls) ok ne =
    Decodes-each uleb put_uleb (λ l. l < 2 ^ 64) Decodes-uleb (l ∷ ls) ok

pub Decodes-function : (f : Function) → IsFunction f → Decodes parse_function (put_function f) f
unfolding parse_function put_function put_counted
Decodes-function f ok =
    let types = Decodes-counted uleb32 put_uleb (λ t. t < 2 ^ 32) Decodes-uleb32 in
    let vars = types f.var_types ok.vars_fit ok.var_types_fit in
    let params = types f.param_types ok.params_fit ok.param_types_fit in
    let labels = Decodes-labels f.labels ok.label_pcs_fit ok.has_label in
    Decodes-bind _ _ _ _ _ f (Decodes-uleb f.registers ok.registers_fit) (
      Decodes-bind _ _ _ _ _ f (Decodes-uleb f.debug_info ok.debug_info_fits) (
        Decodes-bind _ _ _ _ _ f params (
          Decodes-bind _ _ _ _ _ f (Decodes-uleb32 f.return_type ok.return_type_fits) (
            Decodes-bind _ _ _ _ _ f vars (
              Decodes-bind _ _ _ _ _ f (Decodes-uleb (length f.labels) ok.labels_fit)
                (Decodes-map _ _ _ f.labels labels))))))

-- Wherever the emitter wrote a table of strings, each with fewer than 2^64 bytes and there being fewer
-- than 2^64 of them, `string_table` returns those strings and ends just behind the table.
pub string_table-put_string_table :
    (ss : List (List ℕ)) (pc : ℕ) (from rest : List ℕ)
    → length ss < 2 ^ 64
    → All (λ s. length s < 2 ^ 64) ss
    → drop pc from ≡ put_string_table ss ++ rest
    → string_table pc from ≡ parsed ss (pc + length (put_string_table ss))
string_table-put_string_table ss pc from rest n ok = Decodes-string_table ss n ok pc from rest

-- Wherever the emitter wrote the entry of a function whose type ids fit 32 bits, whose other numbers
-- and counts fit 64 and which has a label, `parse_function` returns that function whole and ends just
-- behind the entry.
pub parse_function-put_function :
    (f : Function) (pc : ℕ) (from rest : List ℕ)
    → IsFunction f
    → drop pc from ≡ put_function f ++ rest
    → parse_function pc from ≡ parsed f (pc + length (put_function f))
parse_function-put_function f pc from rest ok = Decodes-function f ok pc from rest
