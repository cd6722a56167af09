-- ===== src/Common/Errors.antt =====
-- C++ exceptions as values.
use mathlib.Core.Path.{◌≡◌, refl}

-- What `util::atoi`, `util::itoa` and `parse_urlencoded` throw; what `std::vector::at` and the
-- constructor of `std::string` throw; a file or a field that is not there; and the use of a null
-- pointer, which has no defined result.
pub data Fail : Type 0 where
  too_long out_of_range bad_symbol bad_base empty_name : Fail
  bad_index bad_length null_pointer no_file no_field : Fail

pub data Result {ℓ} (A : Type ℓ) : Type ℓ where
  ok : A → Result A
  throw : Fail → Result A

infixl 5 ◌>>=◌
abbrev pub ◌>>=◌ {ℓ κ} : {A : Type ℓ} {B : Type κ} → Result A → (A → Result B) → Result B
ok a >>= f = f a
throw e >>= f = throw e

-- A chain that returns has returned from its first part, and then from the rest.
pub bind-eq-ok {ℓ κ} :
    {S : Type ℓ} {T : Type κ} (first : Result S) (rest : S → Result T) {y : T}
    → (first >>= rest) ≡ ok y
    → (x : S) × (first ≡ ok x) × (rest x ≡ ok y)
bind-eq-ok (ok x) rest returns = (x, refl, returns)
bind-eq-ok (throw e) rest returns = cc
