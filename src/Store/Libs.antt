-- ===== src/Store/Libs.antt =====
-- What base.cpp takes from code outside the repository, and how a call of it can end.
use highload_cup.Common.{ℕ, Bool, Option, Bytes}
use highload_cup.Common.Int.{ℤ}

-- The fields of `struct tm` that base.h writes or keeps.
pub record Tm : Type 0 where
  pub tm_year : ℤ
  pub tm_mon : ℕ
  pub tm_mday : ℕ
  pub tm_hour : ℕ
  pub tm_min : ℕ
  pub tm_sec : ℕ

pub record Libs : Type 1 where
  -- rapidjson: a document that was an empty object and has parsed a text; `none` is an exception.
  pub Document : Type 0
  pub Value : Type 0
  pub parse : Bytes → Option Document
  -- `none` is the failed assertion that the document is an object, which json.h makes an exception.
  pub has_member : Document → Bytes → Option Bool
  pub member : Document → Bytes → Value
  pub is_string : Value → Bool
  pub is_null : Value → Bool
  pub is_uint : Value → Bool
  pub is_int : Value → Bool
  pub get_string : Value → Bytes
  pub get_uint : Value → ℕ
  pub get_int : Value → ℤ
  -- The time zone's `mktime`.
  pub mktime : Tm → ℤ
  -- `double`: a sum, a quotient by a whole number, the constant 1E-10, and what `sprintf` writes for
  -- `%.5f`.
  pub Double : Type 0
  pub zero_mark : Double
  pub add_mark : Double → ℕ → Double
  pub add : Double → Double → Double
  pub divide : Double → ℕ → Double
  pub epsilon : Double
  pub print_5f : Double → Bytes

-- A call returns, gives up by `return false`, ends the process (an exception that nothing catches,
-- or a failed assertion), or never ends.
pub data Run {ℓ} (A : Type ℓ) : Type ℓ where
  done : A → Run A
  refused : Run A
  aborted : Run A
  hung : Run A

infixl 5 ◌>>=◌
abbrev pub ◌>>=◌ {ℓ κ} : {A : Type ℓ} {B : Type κ} → Run A → (A → Run B) → Run B
done a >>= f = f a
refused >>= f = refused
aborted >>= f = aborted
hung >>= f = hung
