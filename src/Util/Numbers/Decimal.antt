-- ===== src/Util/Numbers/Decimal.antt =====
-- The comparison of texts of one length in `util::atoi` is the comparison of the numbers they spell.
use highload_cup.Common.{
  ℕ, suc, ◌+◌, ◌-◌, ◌*◌, ◌≤◌, ◌<◌, ◌≡◌, refl, [], ◌∷◌, ◌++◌, arith, ltb, Bytes, length, replicate,
  zero, All,
}
use highload_cup.Util.Numbers.{lex_lt}

abbrev pub IsDigit : ℕ → Type 0
IsDigit c = (b'0' ≤ c) × (c ≤ b'9')

-- The number that digits spell behind `n`, with no bound.
abbrev pub value : ℕ → Bytes → ℕ
value n [] = n
value n (c ∷ s) = value (n * 10 + (c - b'0')) s

value-lt :
    (s t : Bytes) (a b : ℕ)
    → length s ≡ length t
    → All IsDigit s
    → All IsDigit t
    → a < b
    → value a s < value b t
value-lt [] [] a b e ds dt h = h
value-lt [] (d ∷ t) a b e ds dt h = absurd (omega arith)
value-lt (c ∷ s) [] a b e ds dt h = absurd (omega arith)
value-lt (c ∷ s) (d ∷ t) a b e (dc, ds) (dd, dt) h =
    value-lt s t (a * 10 + (c - b'0')) (b * 10 + (d - b'0')) (omega arith) ds dt (omega arith)

pub lex_lt-value :
    (s t : Bytes) (a : ℕ)
    → length s ≡ length t
    → All IsDigit s
    → All IsDigit t
    → lex_lt s t ≡ ltb (value a s) (value a t)
unfolding lex_lt
lex_lt-value [] [] a e ds dt = ground arith
lex_lt-value [] (d ∷ t) a e ds dt = absurd (omega arith)
lex_lt-value (c ∷ s) [] a e ds dt = absurd (omega arith)
lex_lt-value (c ∷ s) (d ∷ t) a e (dc, ds) (dd, dt) =
    let m = a * 10 + (c - b'0') in
    let n = a * 10 + (d - b'0') in
    ground (
      arith,
      lex_lt-value s t m (omega arith) ds dt,
      value-lt s t m n (omega arith) ds dt,
      value-lt t s n m (omega arith) dt ds,
    )

pub value-replicate : (n : ℕ) (s : Bytes) → value 0 (replicate n b'0' ++ s) ≡ value 0 s
value-replicate zero s = refl
value-replicate (suc n) s = value-replicate n s

pub replicate-IsDigit : (n : ℕ) → All IsDigit (replicate n b'0')
replicate-IsDigit zero = tt
replicate-IsDigit (suc n) = ((omega arith, omega arith), replicate-IsDigit n)

pub le-value : (text : Bytes) (front : ℕ) → front ≤ value front text
le-value [] front = omega arith
le-value (digit ∷ text) front = omega (arith, le-value text (front * 10 + (digit - b'0')))
