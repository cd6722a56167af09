-- ===== src/Http/Request/Isolated/Buffer.antt =====
-- The loop of `parse` in two buffers that differ only behind the text that is read.
use highload_cup.Common.{
  ℕ, ◌+◌, ◌-◌, ◌≤◌, ◌≡◌, ◌≢◌, ◌⊎◌, inl, inr, refl, ap, sym, ◌∙◌, true, List, [], ◌∷◌, ◌++◌, arith,
  Bytes, length, All, All-append, length-append, append_assoc, append-nil, Result, ok, throw,
}
use highload_cup.Http.Params.Local.{slice-prefix, parse_urlencoded-prefix}
use highload_cup.Http.Params.{parse_urlencoded}
use highload_cup.Http.Request.{
  State, in_method, in_path, in_options, in_version, in_header, in_body, Parser, Next, going,
  returned, thrown, add_get, with_params, token, step_method, step_path, step_options, step_version,
  step_header, step_body, step_in, Outcome, parsed, exception, out_of_bounds,
}
use highload_cup.Http.Request.Loop.{read_loop}

-- The bytes read since `current`; while the parameters are read there is no space in them.
pub record Since (past : Bytes) (p : Parser) : Type 0 where
  pub front : Bytes
  pub text : Bytes
  pub split : past ≡ front ++ text
  pub at : length front ≡ p.current
  pub no_space : p.state ≡ in_options → All (λ b. b ≢ b' ') text

token-prefix :
    (past x y : Bytes) (p : Parser)
    → Since past p
    → token (past ++ x) p (length past) ≡ token (past ++ y) p (length past)
token-prefix past x y p since =
    let le : p.current + (length past - p.current) ≤ length past =
      omega (arith, ap length since.split, since.at, length-append since.front since.text) in
    slice-prefix past x y p.current (length past - p.current) le

params-prefix :
    (past x y : Bytes) (p : Parser) (params : List (Bytes × Bytes))
    → p.state ≡ in_options
    → Since past p
    → parse_urlencoded (past ++ x) p.current (length past) add_get b'&' true params
      ≡ parse_urlencoded (past ++ y) p.current (length past) add_get b'&' true params
params-prefix past x y p params e since =
    rw (since.split, sym since.at)
      (parse_urlencoded-prefix since.front since.text x y add_get b'&' params (since.no_space e))

-- One round in two buffers that agree on what has been read.
step_in-prefix :
    (state : State) (past x y : Bytes) (b : ℕ) (p : Parser)
    → p.state ≡ state
    → Since past p
    → step_in state (past ++ x) p b (length past) ≡ step_in state (past ++ y) p b (length past)
unfolding step_method step_path step_options
step_in-prefix in_method past x y b p e since = rw (token-prefix past x y p since) refl
step_in-prefix in_path past x y b p e since = rw (token-prefix past x y p since) refl
step_in-prefix in_options past x y b p e since =
    rw (params-prefix past x y p p.proto.params e since) refl
step_in-prefix in_version past x y b p e since = refl
step_in-prefix in_header past x y b p e since = refl
step_in-prefix in_body past x y b p e since = refl

-- What a round that goes on does to `current`, and to the bytes since then.
abbrev Moves : Bytes → Parser → ℕ → Parser → Type 0
Moves past p b p' =
    (p'.current ≡ length past + 1)
    ⊎ ((p'.current ≡ p.current) × ((p'.state ≢ in_options) ⊎ ((p'.state ≡ p.state) × (b ≢ b' '))))

with_params_moves :
    (past : Bytes) (p p' : Parser) (b : ℕ) (params : Result (List (Bytes × Bytes)))
    → with_params p (length past) params ≡ going p'
    → p'.current ≡ length past + 1
with_params_moves past p p' b (ok params) e = ground arith
with_params_moves past p p' b (throw f) e = ground arith

step_version-Moves :
    (past : Bytes) (b : ℕ) (p p' : Parser)
    → b ≢ b' '
    → step_version p b (length past) ≡ going p'
    → Moves past p b p'
unfolding step_version
step_version-Moves past b p p' h e = ground arith

step_in-Moves :
    (state : State) (past raw : Bytes) (b : ℕ) (p p' : Parser)
    → p.state ≡ state
    → step_in state raw p b (length past) ≡ going p'
    → Moves past p b p'
unfolding step_method step_path step_options step_header step_body
step_in-Moves in_method past raw b p p' s e = ground arith
step_in-Moves in_path past raw b p p' s e = ground arith
step_in-Moves in_options past raw b p p' s e = ground (
  arith,
  with_params_moves past p p' b
      (parse_urlencoded raw p.current (length past) add_get b'&' true p.proto.params),
  step_version-Moves past b p p',
)
step_in-Moves in_version past raw b p p' s e = unfold step_version in ground arith
step_in-Moves in_header past raw b p p' s e = ground arith
step_in-Moves in_body past raw b p p' s e = ground arith

Moves-Since :
    (past : Bytes) (b : ℕ) (p p' : Parser)
    → Moves past p b p'
    → Since past p
    → Since (past ++ b ∷ []) p'
Moves-Since past b p p' (inl e) since = record {
  front = past ++ b ∷ [];
  text = [];
  split = sym (append-nil (past ++ b ∷ []));
  at = omega (arith, length-append past (b ∷ []));
  no_space = λ _. tt;
}
Moves-Since past b p p' (inr (e, other)) since = record {
  front = since.front;
  text = since.text ++ b ∷ [];
  split = ap (λ t. t ++ b ∷ []) since.split ∙ append_assoc since.front since.text (b ∷ []);
  at = since.at ∙ sym e;
  no_space = λ reading. no_space_behind other reading;
}
  where
    no_space_behind :
        (p'.state ≢ in_options) ⊎ ((p'.state ≡ p.state) × (b ≢ b' '))
        → p'.state ≡ in_options
        → All (λ c. c ≢ b' ') (since.text ++ b ∷ [])
    no_space_behind (inl h) reading = absurd (h reading)
    no_space_behind (inr (same, h)) reading =
        All-append (λ c. c ≢ b' ') since.text (b ∷ []) (since.no_space (sym same ∙ reading)) (h, tt)

-- The same end of a call, with another buffer.
abbrev pub rebuffered : Bytes → Outcome → Outcome
rebuffered raw (parsed res proto _) = parsed res proto raw
rebuffered raw (exception e) = exception e
rebuffered raw out_of_bounds = out_of_bounds

-- What the loop makes of one round.
abbrev pub continued : Bytes → Next → (Parser → Outcome) → Outcome
continued raw (going p) loop = loop p
continued raw (returned res proto) loop = parsed res proto raw
continued raw (thrown e) loop = exception e

pub read_loop-cons :
    (raw todo : Bytes) (b count : ℕ) (p : Parser)
    → read_loop raw (b ∷ todo) count p
      ≡ continued raw (step_in p.state raw p b count) (read_loop raw todo (count + 1))
unfolding read_loop
read_loop-cons raw todo b count p = go (step_in p.state raw p b count)
  where
    go :
        (n : Next)
        → ◌≡◌ {A = Outcome}
            (elim n [
              | going p' ↦ read_loop raw todo (count + 1) p'
              | returned res proto ↦ parsed res proto raw
              | thrown e ↦ exception e
            ])
            (continued raw n (read_loop raw todo (count + 1)))
    go (going p') = refl
    go (returned res proto) = refl
    go (thrown e) = refl

continued-rebuffered :
    (x y : Bytes) (n : Next) (f g : Parser → Outcome)
    → ((p' : Parser) → n ≡ going p' → rebuffered y (f p') ≡ g p')
    → rebuffered y (continued x n f) ≡ continued y n g
continued-rebuffered x y (going p') f g same = same p' refl
continued-rebuffered x y (returned res proto) f g same = refl
continued-rebuffered x y (thrown e) f g same = refl

-- The loop over the rest of the text, in two buffers that differ behind the text.
pub read_loop-prefix :
    (todo past x y : Bytes) (p : Parser)
    → Since past p
    → rebuffered (past ++ (todo ++ y)) (read_loop (past ++ (todo ++ x)) todo (length past) p)
      ≡ read_loop (past ++ (todo ++ y)) todo (length past) p
read_loop-prefix [] past x y p since = unfold read_loop in refl
read_loop-prefix (b ∷ todo) past x y p since =
    let raw = past ++ (b ∷ todo ++ x) in
    let raw' = past ++ (b ∷ todo ++ y) in
    let n = step_in p.state raw p b (length past) in
    let size : length (past ++ b ∷ []) ≡ length past + 1 =
      omega (arith, length-append past (b ∷ [])) in
    rw
      (
        read_loop-cons raw todo b (length past) p,
        read_loop-cons raw' todo b (length past) p,
        sym (step_in-prefix p.state past (b ∷ todo ++ x) (b ∷ todo ++ y) b p refl since),
      )
      (continued-rebuffered raw raw' n (read_loop raw todo (length past + 1))
        (read_loop raw' todo (length past + 1))
        (λ p' e.
          let since' =
            Moves-Since past b p p' (step_in-Moves p.state past raw b p p' refl e) since in
          let next = read_loop-prefix todo (past ++ b ∷ []) x y p' since' in
          rw (append_assoc past (b ∷ []) (todo ++ x), append_assoc past (b ∷ []) (todo ++ y), size)
            at next))
