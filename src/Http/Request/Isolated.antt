-- ===== src/Http/Request/Isolated.antt =====
-- What `parse` makes of a request does not hang on what earlier requests have left: neither on the
-- bytes behind the text in the buffer nor on the object that is read into.
pub mod Buffer
pub mod Places
use highload_cup.Common.{
  ℕ, ◌+◌, ◌-◌, ◌≤◌, ◌≡◌, ◌⊎◌, inl, inr, refl, ap, sym, ◌∙◌, Bool, true, [], ◌∷◌, ◌++◌, arith, Bytes,
  length, append-nil, subst, Bool-cases, ltb, ◌==◌,
}
use highload_cup.Http.Method.{Method}
use highload_cup.Http.Request.{
  in_method, in_options, Proto, Parser, going, returned, step_method, step_in, Outcome, parsed,
  exception, out_of_bounds, initial, parse, body,
}
use highload_cup.Http.Request.Loop.{read_loop}
use highload_cup.Http.Request.Line.{parse_start}
use highload_cup.Http.Request.Isolated.Buffer.{
  Since, rebuffered, continued, read_loop-cons, read_loop-prefix,
}
use highload_cup.Http.Request.Isolated.Places.{BodyWithin, read_loop-BodyWithin, body-prefix}

-- Two ends of a call that a processor cannot tell apart: with the same body, and with the same
-- object, or both with no path.
abbrev pub Alike : Outcome → Outcome → Type 0
Alike (parsed res proto raw) (parsed res' proto' raw') =
    (res ≡ res')
    × (body proto raw ≡ body proto' raw')
    × ((proto ≡ proto') ⊎ ((proto.path ≡ []) × (proto'.path ≡ [])))
Alike (exception e) (exception e') = e ≡ e'
Alike out_of_bounds out_of_bounds = Unit
Alike _ _ = ⊥

Alike-refl : (o : Outcome) → Alike o o
Alike-refl (parsed res proto raw) = (refl, refl, inl refl)
Alike-refl (exception e) = refl
Alike-refl out_of_bounds = tt

-- The parser with another method in its object.
abbrev with_method : Parser → Method → Parser
with_method p m = record p { proto = record p.proto { method = m } }

-- The method that the object had is read by nothing before the text's own has replaced it.
read_loop-method :
    (todo : Bytes) (raw : Bytes) (count : ℕ) (p : Parser) (m : Method)
    → p.state ≡ in_method
    → p.proto.path ≡ []
    → Alike (read_loop raw todo count p) (read_loop raw todo count (with_method p m))
unfolding step_method body
read_loop-method [] raw count p m s e = unfold read_loop in (refl, refl, inr (e, e))
read_loop-method (b ∷ todo) raw count p m s e =
    rw
      (
        read_loop-cons raw todo b count p,
        read_loop-cons raw todo b count (with_method p m),
        ap (λ t. step_in t raw p b count) s,
        ap (λ t. step_in t raw (with_method p m) b count) s,
      )
      (elim (Bool-cases (b == b' ')) [
        | inr other ↦ rw other (read_loop-method todo raw (count + 1) p m s e)
        | inl space ↦ elim (Bool-cases (ltb 0 (count - p.current))) [
          | inr empty ↦ rw (space, empty) (refl, refl, inr (e, e))
          | inl full ↦ rw (space, full) (Alike-refl _)
        ]
      ])

-- Another buffer on one side.
Alike-rebuffered :
    (text x y : Bytes) (a b : Outcome)
    → BodyWithin (length text) b
    → Alike a (rebuffered (text ++ 0 ∷ x) b)
    → Alike a (rebuffered (text ++ 0 ∷ y) b)
Alike-rebuffered text x y (parsed res proto raw) (parsed res' proto' raw') w (e, same, h) =
    (e, same ∙ body-prefix proto' text x y w, h)
Alike-rebuffered text x y (exception e) (parsed res' proto' raw') w h = h
Alike-rebuffered text x y out_of_bounds (parsed res' proto' raw') w h = h
Alike-rebuffered text x y a (exception e) w h = h
Alike-rebuffered text x y a out_of_bounds w h = h

-- At the start nothing has been read.
initial-Since : (proto : Proto) (size : ℕ) → Since [] (initial proto size)
initial-Since proto size = record {
  front = [];
  text = [];
  split = refl;
  at = refl;
  no_space = λ _. tt;
}

-- Reading one text into two objects and two buffers, each longer than the text.
pub parse-Alike :
    (proto proto' : Proto) (text old old' : Bytes) (o o' : ℕ)
    → Alike
        (parse proto (text ++ o ∷ old) (length text))
        (parse proto' (text ++ o' ∷ old') (length text))
parse-Alike proto proto' text old old' o o' =
    let size = length text in
    let start = initial proto' size in
    let same = read_loop-prefix text [] (0 ∷ old) (0 ∷ old') start (initial-Since proto' size) in
    let itself = read_loop-prefix text [] (0 ∷ old) (0 ∷ old) start (initial-Since proto' size) in
    let run = read_loop (text ++ 0 ∷ old) text 0 start in
    let within =
      read_loop-BodyWithin size (text ++ 0 ∷ old) text 0 start (omega arith) (omega arith)
        (omega arith) in
    rw (parse_start proto text old o, parse_start proto' text old' o', sym same)
      (Alike-rebuffered text old old' (read_loop (text ++ 0 ∷ old) text 0 (initial proto size)) run
        within
        (rw itself
          (read_loop-method text (text ++ 0 ∷ old) 0 (initial proto size) proto'.method refl refl)))
