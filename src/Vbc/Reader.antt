-- ===== src/Vbc/Reader.antt =====
-- Reading from `content` at a position `pc`, as vbci/program.cc does.
use verona_bc.Prelude.{ℕ, List}

-- `refused` is a `return false` of the loader, `fault` the std::out_of_range of `from.at(pc)`.
pub data Parsed (A : Type 0) : Type 0 where
  parsed : A → ℕ → Parsed A
  refused fault : Parsed A

-- A function of the position and the bytes.
abbrev pub Reader : Type 0 → Type 0
Reader A = ℕ → List ℕ → Parsed A

abbrev pub pure : {A : Type 0} → A → Reader A
pure a pc from = parsed a pc

abbrev pub refuse : {A : Type 0} → Reader A
refuse pc from = refused

infixl 5 ◌>>=◌ ◌>>◌
abbrev pub ◌>>=◌ : {A B : Type 0} → Reader A → (A → Reader B) → Reader B
◌>>=◌ m f pc from = elim (m pc from) [
  | parsed a pc' ↦ f a pc' from
  | refused ↦ refused
  | fault ↦ fault
]

abbrev pub ◌>>◌ : {B : Type 0} → Reader (Unit {0}) → Reader B → Reader B
m >> k = m >>= λ _. k
