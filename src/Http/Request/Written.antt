-- ===== src/Http/Request/Written.antt =====
-- The zero that `parse` writes behind a body is where it has written one already.
use highload_cup.Common.{
  ℕ, zero, suc, ◌+◌, ◌-◌, ◌≤◌, ◌<◌, ◌≡◌, refl, ap, true, not, ◌&&◌, some, [], ◌∷◌, arith, ltb, leb,
  Bool-cases, inl, inr, Bytes, length, set,
}
use highload_cup.Http.Method.{is_post}
use highload_cup.Http.Request.{
  Parser, Next, going, returned, thrown, is_body, is_newline, step_in, write_body, Outcome, parsed,
  exception, parse_loop,
}
use highload_cup.Http.Request.Loop.{read_loop}
use highload_cup.Http.Request.Isolated.Buffer.{continued, read_loop-cons}
use highload_cup.Http.Request.Isolated.Places.{Within, step_in-Within}

set-set : (s : Bytes) (n : ℕ) → set (set s n 0) n 0 ≡ set s n 0
set-set [] n = refl
set-set (c ∷ s) zero = refl
set-set (c ∷ s) (suc n) = ap (λ t. c ∷ t) (set-set s n)

pub length-set : (s : Bytes) (n : ℕ) → length (set s n 0) ≡ length s
length-set [] n = refl
length-set (c ∷ s) zero = refl
length-set (c ∷ s) (suc n) = ap suc (length-set s n)

-- A buffer with the zero that is written first.
module _ (old : Bytes) (size : ℕ) (fits : size < length old) where
  abbrev raw : Bytes
  raw = set old size 0

  write_body-kept : (p : Parser) (b : ℕ) → p.current ≤ size → write_body raw size p b ≡ some raw
  unfolding write_body
  write_body-kept p b le =
      elim (Bool-cases (is_body p.state && (not (is_newline b) && is_post p.proto.method))) [
        | inl e ↦
            let place : p.current + (size - p.current) ≡ size = omega arith in
            let below : leb p.current size ≡ true = ground arith in
            let within : ltb size (length raw) ≡ true =
              let same = length-set old size in ground arith in
            rw (e, place, below, within) (ap some (set-set old size))
        | inr e ↦ rw e refl
      ]

  parse_loop-cons :
      (todo : Bytes) (b count : ℕ) (p : Parser)
      → p.current ≤ size
      → parse_loop raw size (b ∷ todo) count p
        ≡ continued raw (step_in p.state raw p b count) (parse_loop raw size todo (count + 1))
  unfolding parse_loop
  parse_loop-cons todo b count p le =
      rw (parse_loop, write_body-kept p b le) (go (step_in p.state raw p b count))
    where
      go :
          (n : Next)
          → ◌≡◌ {A = Outcome}
              (elim n [
                | going p' ↦ parse_loop raw size todo (count + 1) p'
                | returned res proto ↦ parsed res proto raw
                | thrown e ↦ exception e
              ])
              (continued raw n (parse_loop raw size todo (count + 1)))
      go (going p') = refl
      go (returned res proto) = refl
      go (thrown e) = refl

  continued-same :
      (n : Next) (count : ℕ) (f g : Parser → Outcome)
      → Within size count n
      → ((p' : Parser) → p'.current ≤ count + 1 → p'.proto.body_at ≤ size → f p' ≡ g p')
      → continued raw n f ≡ continued raw n g
  continued-same (going p') count f g (a, c) same = same p' a c
  continued-same (returned res proto) count f g w same = refl
  continued-same (thrown e) count f g w same = refl

  -- The loop that writes does what the loop does that only reads.
  pub parse_loop-read :
      (todo : Bytes) (count : ℕ) (p : Parser)
      → p.current ≤ count
      → count + length todo ≤ size
      → p.proto.body_at ≤ size
      → parse_loop raw size todo count p ≡ read_loop raw todo count p
  unfolding parse_loop
  parse_loop-read [] count p le lt h = unfold read_loop in refl
  parse_loop-read (b ∷ todo) count p le lt h =
      rw (parse_loop-cons todo b count p (omega arith), read_loop-cons raw todo b count p)
        (continued-same (step_in p.state raw p b count) count (parse_loop raw size todo (count + 1))
          (read_loop raw todo (count + 1))
          (step_in-Within p.state size raw b count p le (omega arith) h)
          (λ p' a c. parse_loop-read todo (count + 1) p' a (omega arith) c))
