-- ===== src/Http/Request/Isolated/Places.antt =====
-- Where the body of a request can start: not behind the text that is read.
use highload_cup.Common.{
  ℕ, zero, suc, ◌+◌, ◌≤◌, ◌≡◌, refl, true, List, [], ◌∷◌, ◌++◌, arith, Bytes, length, drop, Result,
  ok, throw, ap, ◌==◌, if◌then◌else◌,
}
use highload_cup.Http.Params.{parse_urlencoded}
use highload_cup.Http.Request.{
  State, in_method, in_path, in_options, in_version, in_header, in_body, Proto, Parser, Next, going,
  returned, thrown, add_get, with_params, step_method, step_path, step_options, step_version,
  step_header, step_body, step_in, Outcome, parsed, exception, out_of_bounds, body, c_str,
}
use highload_cup.Http.Request.Loop.{read_loop}
use highload_cup.Http.Request.Isolated.Buffer.{continued, read_loop-cons}

abbrev pub Within : ℕ → ℕ → Next → Type 0
Within size count (going p) = (p.current ≤ count + 1) × (p.proto.body_at ≤ size)
Within size count (returned res proto) = proto.body_at ≤ size
Within size count (thrown e) = Unit

with_params-Within :
    (size count : ℕ) (p : Parser) (params : Result (List (Bytes × Bytes)))
    → p.proto.body_at ≤ size
    → Within size count (with_params p count params)
with_params-Within size count p (throw e) h = tt
with_params-Within size count p (ok params) h = ground arith

pub step_in-Within :
    (state : State) (size : ℕ) (raw : Bytes) (b count : ℕ) (p : Parser)
    → p.current ≤ count
    → count ≤ size
    → p.proto.body_at ≤ size
    → Within size count (step_in state raw p b count)
unfolding step_method step_path step_options step_version step_header step_body
step_in-Within in_method size raw b count p le lt h = ground arith
step_in-Within in_path size raw b count p le lt h = ground arith
step_in-Within in_options size raw b count p le lt h = ground (
  arith,
  with_params-Within size count p
      (parse_urlencoded raw p.current count add_get b'&' true p.proto.params),
)
step_in-Within in_version size raw b count p le lt h = ground arith
step_in-Within in_header size raw b count p le lt h = ground arith
step_in-Within in_body size raw b count p le lt h = ground arith

abbrev pub BodyWithin : ℕ → Outcome → Type 0
BodyWithin size (parsed res proto raw) = proto.body_at ≤ size
BodyWithin size (exception e) = Unit
BodyWithin size out_of_bounds = Unit

pub read_loop-BodyWithin :
    (size : ℕ) (raw todo : Bytes) (count : ℕ) (p : Parser)
    → p.current ≤ count
    → count + length todo ≤ size
    → p.proto.body_at ≤ size
    → BodyWithin size (read_loop raw todo count p)
read_loop-BodyWithin size raw [] count p le lt h = unfold read_loop in h
read_loop-BodyWithin size raw (b ∷ todo) count p le lt h = rw (read_loop-cons raw todo b count p) (
    go (step_in p.state raw p b count)
      (step_in-Within p.state size raw b count p le (omega arith) h)
      (λ p' a c. read_loop-BodyWithin size raw todo (count + 1) p' a (omega arith) c))
  where
    go :
        (n : Next)
        → Within size count n
        → ((p' : Parser)
            → p'.current ≤ count + 1
            → p'.proto.body_at ≤ size
            → BodyWithin size (read_loop raw todo (count + 1) p'))
        → BodyWithin size (continued raw n (read_loop raw todo (count + 1)))
    go (going p') w ih = ih p' w.0 w.1
    go (returned res proto) w ih = w
    go (thrown e) w ih = tt

-- A body that starts in the text or at its end is read up to the zero behind the text.
pub body-prefix :
    (proto : Proto) (text x y : Bytes)
    → proto.body_at ≤ length text
    → body proto (text ++ 0 ∷ x) ≡ body proto (text ++ 0 ∷ y)
unfolding body
body-prefix proto text x y h = go proto.body_at text h
  where
    rest : (text : Bytes) → c_str (text ++ 0 ∷ x) ≡ c_str (text ++ 0 ∷ y)
    rest [] = refl
    rest (c ∷ text) = ap (λ t. if c == 0 then [] else c ∷ t) (rest text)

    go :
        (n : ℕ) (text : Bytes)
        → n ≤ length text
        → c_str (drop n (text ++ 0 ∷ x)) ≡ c_str (drop n (text ++ 0 ∷ y))
    go zero text h = rest text
    go (suc n) [] h = absurd (omega arith)
    go (suc n) (c ∷ text) h = go n text (omega arith)
