-- ===== src/Util/Numbers/Parse.antt =====
-- What `util::atoi` in base 10 accepts, and what it returns.
use native.Mathlib.Nat.{mod-eq_of_lt, lt_of_le_of_lt}
use highload_cup.Common.{
  ℕ, zero, suc, ◌+◌, ◌-◌, ◌*◌, ◌%◌, ◌^◌, ◌≤◌, ◌<◌, ◌≡◌, refl, false, [], ◌∷◌, ◌++◌, ◌↔◌, arith, ltb,
  Bytes, codes, length, replicate, length-append, length-replicate, All, All-append, ok, bind-eq-ok,
}
use highload_cup.Util.Numbers.Decimal.{
  IsDigit, value, lex_lt-value, value-replicate, replicate-IsDigit, le-value,
}
use highload_cup.Util.Numbers.{
  IntType, uint32, int64, lex_lt, digit_value, atoi_loop, atoi_within, format_uint32, format_long,
}

digit_value_digit : (c : ℕ) → IsDigit c → digit_value 10 c ≡ ok (c - b'0')
unfolding digit_value
digit_value_digit c h = ground arith

digit_value_sound : (c : ℕ) {d : ℕ} → digit_value 10 c ≡ ok d → IsDigit c
unfolding digit_value
digit_value_sound c h = ground arith

-- The loop returns what the digits spell, if that fits the type.
atoi_loop_digits :
    (t : IntType) (s : Bytes) (n : ℕ)
    → All IsDigit s
    → value n s < 2 ^ t.bits
    → atoi_loop t 10 s n ≡ ok (value n s)
unfolding atoi_loop
atoi_loop_digits t [] n ds h = refl
atoi_loop_digits t (c ∷ s) n (dc, ds) h =
    let m = n * 10 + (c - b'0') in
    rw (digit_value_digit c dc, mod-eq_of_lt (lt_of_le_of_lt (le-value s m) h))
      (atoi_loop_digits t s m ds h)

atoi_loop_sound :
    (t : IntType) (s : Bytes) (n : ℕ) {r : ℕ} → atoi_loop t 10 s n ≡ ok r → All IsDigit s
unfolding atoi_loop
atoi_loop_sound t [] n h = tt
atoi_loop_sound t (c ∷ s) n {r} h =
    let (d, e, rest) =
      bind-eq-ok (digit_value 10 c) (λ pos. atoi_loop t 10 s ((n * 10 + pos) % 2 ^ t.bits)) h in
    (digit_value_sound c e, atoi_loop_sound t s _ rest)

replicate-append-IsDigit : (n : ℕ) (s : Bytes) → All IsDigit (replicate n b'0' ++ s) → All IsDigit s
replicate-append-IsDigit zero s h = h
replicate-append-IsDigit (suc n) s h = replicate-append-IsDigit n s h.1

-- What `atoi` returns for an accepted text.
abbrev pub Spells : Bytes → Bytes → ℕ → Type 0
Spells test_str s r =
    All IsDigit s × (length s ≤ length test_str) × (r ≡ value 0 s) × (r ≤ value 0 test_str)

module _ (t : IntType) (test_str : Bytes) (digits : All IsDigit test_str)
    (fits : value 0 test_str < 2 ^ t.bits) where
  length-padded :
      (s : Bytes)
      → length s ≤ length test_str
      → length test_str ≡ length (replicate (length test_str - length s) b'0' ++ s)
  length-padded s h = omega (
    arith,
    length-append (replicate (length test_str - length s) b'0') s,
    length-replicate {A = ℕ} (length test_str - length s) b'0',
  )

  -- The test on the padded text compares the numbers.
  lex_lt-padded :
      (s : Bytes)
      → length s ≤ length test_str
      → All IsDigit s
      → lex_lt test_str (replicate (length test_str - length s) b'0' ++ s)
        ≡ ltb (value 0 test_str) (value 0 s)
  lex_lt-padded s h ds =
      let zeros = length test_str - length s in
      rw (← value-replicate zeros s) (
        lex_lt-value test_str (replicate zeros b'0' ++ s) 0 (length-padded s h) digits
          (All-append IsDigit (replicate zeros b'0') s (replicate-IsDigit zeros) ds))

  pub atoi_within_complete :
      (s : Bytes) (r : ℕ) → Spells test_str s r → atoi_within t 10 test_str s ≡ ok r
  unfolding atoi_within
  atoi_within_complete s r (ds, short, e, le) =
      let zeros = length test_str - length s in
      let same = value-replicate zeros s in
      let padded = All-append IsDigit (replicate zeros b'0') s (replicate-IsDigit zeros) ds in
      ground (
        arith,
        lex_lt-padded s short ds,
        same,
        atoi_loop_digits t (replicate zeros b'0' ++ s) 0 padded (omega (arith, same)),
      )

  -- The tests that an accepted text has passed.
  accepted_tests :
      (s : Bytes) (r : ℕ)
      → atoi_within t 10 test_str s ≡ ok r
      → (length s ≤ length test_str)
        × (lex_lt test_str (replicate (length test_str - length s) b'0' ++ s) ≡ false)
        × (atoi_loop t 10 (replicate (length test_str - length s) b'0' ++ s) 0 ≡ ok r)
  unfolding atoi_within
  accepted_tests s r h = ground arith

  pub atoi_within_sound :
      (s : Bytes) (r : ℕ) → atoi_within t 10 test_str s ≡ ok r → Spells test_str s r
  atoi_within_sound s r h =
      let zeros = length test_str - length s in
      let (short, in_range, result) = accepted_tests s r h in
      let padded = atoi_loop_sound t (replicate zeros b'0' ++ s) 0 result in
      let ds = replicate-append-IsDigit zeros s padded in
      let same = value-replicate zeros s in
      let bound = lex_lt-padded s short ds in
      let returns =
        atoi_loop_digits t (replicate zeros b'0' ++ s) 0 padded (ground (arith, same, bound)) in
      (ds, short, ground (arith, same, returns), ground (arith, same, returns, bound))

-- The digits of the greatest value of the type.
abbrev pub max_uint32 : Bytes
max_uint32 = codes "4294967295"

abbrev pub max_long : Bytes
max_long = codes "9223372036854775807"

-- `format<uint32_t>` returns `n` exactly when the text is of digits alone, at most ten of them (so
-- the empty text too, which is 0), that spell `n`, and `n` is below 2^32: nothing wraps around.
pub format_uint32_exact :
    (s : Bytes) (n : ℕ)
    → (format_uint32 s ≡ ok n)
      ↔ (All IsDigit s × (length s ≤ 10) × (n ≡ value 0 s) × (n ≤ 2 ^ 32 - 1))
unfolding format_uint32
format_uint32_exact s n = (
  λ h. atoi_within_sound uint32 max_uint32 (omega arith) (omega arith) s n h,
  λ h. atoi_within_complete uint32 max_uint32 (omega arith) (omega arith) s n h,
)

-- `format<long>` returns `n` exactly when the text is of digits alone, at most nineteen of them,
-- that spell `n`, and `n` is below 2^63: a negative number is never read.
pub format_long_exact :
    (s : Bytes) (n : ℕ)
    → (format_long s ≡ ok n)
      ↔ (All IsDigit s × (length s ≤ 19) × (n ≡ value 0 s) × (n ≤ 2 ^ 63 - 1))
unfolding format_long
format_long_exact s n = (
  λ h. atoi_within_sound int64 max_long (omega arith) (omega arith) s n h,
  λ h. atoi_within_complete int64 max_long (omega arith) (omega arith) s n h,
)
