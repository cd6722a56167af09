-- ===== src/Http/Request/Bounds.antt =====
-- When `parse` writes behind the end of the buffer.
use highload_cup.Common.{
  arith, ℕ, zero, suc, ◌+◌, ◌≤◌, ◌≡◌, ◌≢◌, ◌↔◌, refl, sym, ◌∙◌, false, [], ◌∷◌, ltb, Bool-cases,
  inl, inr, Bytes, length, set, take,
}
use highload_cup.Http.Request.{
  Proto, Parser, Next, going, returned, thrown, step_in, out_of_bounds, initial, parse,
}
use highload_cup.Http.Request.Loop.{read_loop}
use highload_cup.Http.Request.Isolated.Buffer.{continued, read_loop-cons}
use highload_cup.Http.Request.Written.{parse_loop-read}

-- The loop that only reads stays in the buffer.
read_loop-in_bounds :
    (raw todo : Bytes) (count : ℕ) (p : Parser) → read_loop raw todo count p ≢ out_of_bounds
read_loop-in_bounds raw [] count p h = unfold read_loop in absurd cc
read_loop-in_bounds raw (b ∷ todo) count p h =
    go (step_in p.state raw p b count) (λ p'. read_loop-in_bounds raw todo (count + 1) p')
      (sym (read_loop-cons raw todo b count p) ∙ h)
  where
    go :
        (n : Next)
        → ((p' : Parser) → read_loop raw todo (count + 1) p' ≢ out_of_bounds)
        → continued raw n (read_loop raw todo (count + 1)) ≢ out_of_bounds
    go (going p') ih h = ih p' h
    go (returned res proto) ih h = absurd cc
    go (thrown e) ih h = absurd cc

length-take : (s : Bytes) (n : ℕ) → length (take n s) ≤ n
length-take s zero = omega arith
length-take [] (suc n) = omega arith
length-take (c ∷ s) (suc n) = omega (arith, length-take s n)

-- A call of `parse` writes behind the end of the buffer, be it the zero behind the text or the one
-- behind the body of a POST request, exactly when what has been read fills the buffer or more.
pub parse-out_of_bounds :
    (proto : Proto) (raw : Bytes) (raw_size : ℕ)
    → (parse proto raw raw_size ≡ out_of_bounds) ↔ (length raw ≤ raw_size)
unfolding parse
parse-out_of_bounds proto raw raw_size = (
  λ h. elim (Bool-cases (ltb raw_size (length raw))) [
    | inl fits ↦
        let text = take raw_size (set raw raw_size 0) in
        let reads =
          parse_loop-read raw raw_size (ground arith) text 0 (initial proto raw_size) (omega arith)
            (omega (arith, length-take (set raw raw_size 0) raw_size)) (omega arith) in
        absurd (
          read_loop-in_bounds (set raw raw_size 0) text 0 (initial proto raw_size)
            (sym reads ∙ (rw (fits, parse) at h)))
    | inr full ↦ ground arith
  ],
  λ le. let full : ltb raw_size (length raw) ≡ false = ground arith in rw full refl,
)
