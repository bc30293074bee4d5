-- ===== src/Error.antt =====
-- crates/bkndb-core/src/error.rs: the errors of every layer, and the `?` of the code.
-- The text of a message is not modelled; the names that an error carries are.
use mathlib.Core.Path.{◌≡◌, refl}
use bkndb.Prelude.{ℕ, List}

pub data BknError : Type 0 where
  backend : BknError
  table_not_found : List ℕ → BknError
  not_found : BknError
  encoding : BknError
  reserved_table_name : List ℕ → BknError
  database_locked : BknError
  duplicate_key : List ℕ → BknError
  schema_mismatch : List ℕ → BknError
  constraint_violation : List ℕ → BknError
  corruption : BknError
  invalid_query : BknError

pub data Result {ℓ} (A : Type ℓ) : Type ℓ where
  ok : A → Result A
  err : BknError → Result A

-- `?`: an error ends the function.
infixl 5 ◌>>=◌
abbrev pub ◌>>=◌ {ℓ κ} : {A : Type ℓ} {B : Type κ} → Result A → (A → Result B) → Result B
err e >>= rest = err e
ok a >>= rest = rest a

-- A chain that succeeds has a first step that succeeds.
pub bind-eq-ok {ℓ κ} :
    {A : Type ℓ} {B : Type κ} (first : Result A) (rest : A → Result B) {value : B}
    → (first >>= rest) ≡ ok value
    → (a : A) × (first ≡ ok a) × (rest a ≡ ok value)
bind-eq-ok (err e) rest h = cc
bind-eq-ok (ok a) rest h = (a, refl, h)
