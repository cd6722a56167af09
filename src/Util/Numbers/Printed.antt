-- ===== src/Util/Numbers/Printed.antt =====
-- What `std::to_string` prints is read back by `format<int>`.
use highload_cup.Common.{
  arith, ℕ, zero, suc, ◌+◌, ◌/◌, ◌%◌, ◌^◌, ◌<◌, ◌≤◌, ◌≡◌, refl, ap, ◌∙◌, sym, [], ◌∷◌, Bytes, codes,
  ◌==◌, if◌then◌else◌, length, All, Bool, true, false, Bool-cases, inl, inr, ==_iff, ok,
}
use native.Mathlib.Nat.{pow-suc}
use highload_cup.Common.Text.{digits, to_string}
use highload_cup.Util.Numbers.{int32, format_int}
use highload_cup.Util.Numbers.Decimal.{IsDigit, value}
use highload_cup.Util.Numbers.Parse.{atoi_within_complete}

value_digit : (n : ℕ) (out : Bytes) → value (n / 10) ((b'0' + n % 10) ∷ out) ≡ value n out
value_digit n out = ap (λ m. value m out) (omega arith)

digits-value :
    (fuel n : ℕ) (out : Bytes) → n < 10 ^ fuel → value 0 (digits fuel n out) ≡ value n out
unfolding digits
digits-value zero n out h = let e : n ≡ 0 = omega arith in rw e refl
digits-value (suc fuel) n out h = elim (Bool-cases (n == 0)) [
  | inl e ↦ rw (e, (==_iff n 0).0 e) refl
  | inr e ↦ rw e (
      digits-value fuel (n / 10) ((b'0' + n % 10) ∷ out) (omega (arith, pow-suc 10 fuel))
      ∙ value_digit n out)
]

digits-IsDigit : (fuel n : ℕ) (out : Bytes) → All IsDigit out → All IsDigit (digits fuel n out)
unfolding digits
digits-IsDigit zero n out h = h
digits-IsDigit (suc fuel) n out h = elim (Bool-cases (n == 0)) [
  | inl e ↦ rw e h
  | inr e ↦
      rw e (digits-IsDigit fuel (n / 10) ((b'0' + n % 10) ∷ out) ((omega arith, omega arith), h))
]

length-digits :
    (k fuel n : ℕ) (out : Bytes) → n < 10 ^ k → length (digits fuel n out) ≤ length out + k
unfolding digits
length-digits k zero n out h = omega arith
length-digits zero (suc fuel) n out h = let e : n ≡ 0 = omega arith in rw e (omega arith)
length-digits (suc k) (suc fuel) n out h =
    ground (arith, pow-suc 10 k, length-digits k fuel (n / 10) ((b'0' + n % 10) ∷ out))

-- Digits that spell a number, and no more than ten.
abbrev IsPrinted : ℕ → Bytes → Type 0
IsPrinted n s = All IsDigit s × (length s ≤ 10) × (value 0 s ≡ n)

if_IsPrinted :
    (n : ℕ) (b : Bool) (s t : Bytes)
    → (b ≡ true → IsPrinted n s)
    → IsPrinted n t
    → IsPrinted n (if b then s else t)
if_IsPrinted n true s t h k = h refl
if_IsPrinted n false s t h k = k

pub to_string_decimal : (n : ℕ) → n < 2 ^ 31 → IsPrinted n (to_string n)
unfolding to_string
to_string_decimal n h =
    if_IsPrinted n (n == 0) (codes "0") (digits 20 n [])
      (λ e. (((omega arith, omega arith), tt), omega arith, sym ((==_iff n 0).0 e)))
      (
        digits-IsDigit 20 n [] tt,
        length-digits 10 20 n [] (omega arith),
        digits-value 20 n [] (omega arith),
      )

abbrev max_int : Bytes
max_int = codes "2147483647"

pub format_int-to_string : (n : ℕ) → n < 2 ^ 31 → format_int (to_string n) ≡ ok n
unfolding format_int
format_int-to_string n h =
    let (ds, short, spells) = to_string_decimal n h in
    atoi_within_complete int32 max_int (omega arith) (omega arith) (to_string n) n
      (ds, short, sym spells, omega arith)
