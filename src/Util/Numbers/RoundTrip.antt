-- ===== src/Util/Numbers/RoundTrip.antt =====
-- `util::atoi` reads back what `util::itoa` prints in base 10.
use native.Mathlib.Nat.{pow-suc}
use mathlib.Core.List.{reverse, reverse-append, reverse_aux}
use highload_cup.Common.{
  ℕ, zero, suc, ◌+◌, ◌-◌, ◌*◌, ◌/◌, ◌%◌, ◌^◌, ◌≤◌, ◌<◌, ◌≡◌, refl, ap, sym, codes, ==_iff, [], ◌∷◌,
  ◌++◌, arith, Bool-cases, inl, inr, ◌==◌, Bytes, length, length-append, All, All-append, ok, ◌>>=◌,
}
use highload_cup.Util.Numbers.Decimal.{IsDigit, value}
use highload_cup.Util.Numbers.Parse.{format_uint32_exact}
use highload_cup.Util.Numbers.{alph_at, itoa_loop, itoa_fuel, itoa, format_uint32}

alph_at-lt : (d : ℕ) → d < 10 → alph_at d ≡ b'0' + d
alph_at-lt zero h = refl
alph_at-lt (suc zero) h = refl
alph_at-lt (suc (suc zero)) h = refl
alph_at-lt (suc (suc (suc zero))) h = refl
alph_at-lt (suc (suc (suc (suc zero)))) h = refl
alph_at-lt (suc (suc (suc (suc (suc zero))))) h = refl
alph_at-lt (suc (suc (suc (suc (suc (suc zero)))))) h = refl
alph_at-lt (suc (suc (suc (suc (suc (suc (suc zero))))))) h = refl
alph_at-lt (suc (suc (suc (suc (suc (suc (suc (suc zero)))))))) h = refl
alph_at-lt (suc (suc (suc (suc (suc (suc (suc (suc (suc zero))))))))) h = refl
alph_at-lt (suc (suc (suc (suc (suc (suc (suc (suc (suc (suc d)))))))))) h = absurd (omega arith)

-- One round of the loop puts the last digit behind those that are there.
value-reverse :
    (n : ℕ) (out : Bytes)
    → value (n / 10) (reverse (out ++ alph_at (n % 10) ∷ [])) ≡ value n (reverse out)
value-reverse n out =
    let digit = alph_at-lt (n % 10) (omega arith) in
    let same : n / 10 * 10 + (b'0' + n % 10 - b'0') ≡ n = omega arith in
    rw (reverse-append out (alph_at (n % 10) ∷ []), digit) (ap (λ m. value m (reverse out)) same)

itoa_loop-value :
    (fuel n : ℕ) (out : Bytes)
    → n < 10 ^ fuel
    → value 0 (reverse (itoa_loop fuel 10 n out)) ≡ value n (reverse out)
unfolding itoa_loop
itoa_loop-value zero n out h = let e : n ≡ 0 = omega arith in rw e
itoa_loop-value (suc fuel) n out h = ground (
  arith,
  value-reverse n out,
  pow-suc 10 fuel,
  itoa_loop-value fuel (n / 10) (out ++ alph_at (n % 10) ∷ []) (omega (arith, pow-suc 10 fuel)),
)

itoa_loop-IsDigit :
    (fuel n : ℕ) (out : Bytes) → All IsDigit out → All IsDigit (itoa_loop fuel 10 n out)
unfolding itoa_loop
itoa_loop-IsDigit zero n out h = h
itoa_loop-IsDigit (suc fuel) n out h = elim (Bool-cases (n == 0)) [
  | inl e ↦ rw e h
  | inr e ↦
      let digit = alph_at-lt (n % 10) (omega arith) in
      rw e (
        itoa_loop-IsDigit fuel (n / 10) (out ++ alph_at (n % 10) ∷ [])
          (All-append IsDigit out _ h (((rw digit (omega arith)), (rw digit (omega arith))), tt)))
]

length-itoa_loop :
    (k fuel n : ℕ) (out : Bytes) → n < 10 ^ k → length (itoa_loop fuel 10 n out) ≤ length out + k
unfolding itoa_loop
length-itoa_loop k zero n out h = omega arith
length-itoa_loop zero (suc fuel) n out h = let e : n ≡ 0 = omega arith in rw e (omega arith)
length-itoa_loop (suc k) (suc fuel) n out h = ground (
  arith,
  pow-suc 10 k,
  length-append out (alph_at (n % 10) ∷ []),
  length-itoa_loop k fuel (n / 10) (out ++ alph_at (n % 10) ∷ []),
)

All-reverse_aux : (s r : Bytes) → All IsDigit s → All IsDigit r → All IsDigit (reverse_aux s r)
All-reverse_aux [] r hs hr = hr
All-reverse_aux (c ∷ s) r (hc, hs) hr = All-reverse_aux s (c ∷ r) hs (hc, hr)

length-reverse_aux : (s r : Bytes) → length (reverse_aux s r) ≡ length s + length r
length-reverse_aux [] r = omega arith
length-reverse_aux (c ∷ s) r = omega (arith, length-reverse_aux s (c ∷ r))

-- What `itoa` prints in base 10: the digits of the number, and no more of them than it needs.
pub itoa_decimal :
    (n k : ℕ)
    → n < 2 ^ 64
    → n < 10 ^ k
    → 0 < k
    → (s : Bytes) × (itoa n 10 ≡ ok s) × All IsDigit s × (length s ≤ k) × (value 0 s ≡ n)
unfolding itoa
itoa_decimal n k fits h pos = elim (Bool-cases (n == 0)) [
  | inl e ↦ (codes "0", rw e, omega arith, omega arith, omega (arith, (==_iff n 0).0 e))
  | inr e ↦ (
    reverse (itoa_loop itoa_fuel 10 n []),
    rw e,
    All-reverse_aux (itoa_loop itoa_fuel 10 n []) [] (itoa_loop-IsDigit itoa_fuel n [] tt) tt,
    omega (
      arith,
      length-reverse_aux (itoa_loop itoa_fuel 10 n []) [],
      length-itoa_loop k itoa_fuel n [] h,
    ),
    itoa_loop-value itoa_fuel n [] (omega arith),
  )
]

-- Every `uint32_t` that `itoa` prints in base 10 is read back by `format<uint32_t>`.
pub format_uint32-itoa : (n : ℕ) → n < 2 ^ 32 → (itoa n 10 >>= format_uint32) ≡ ok n
format_uint32-itoa n h =
    let (s, prints, ds, short, spells) =
      itoa_decimal n 10 (omega arith) (omega arith) (omega arith) in
    rw prints ((format_uint32_exact s n).1 (ds, short, sym spells, omega arith))
