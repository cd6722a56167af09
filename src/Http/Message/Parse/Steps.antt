-- ===== src/Http/Message/Parse/Steps.antt =====
-- The loop of `parse` over bytes that a state passes over.
use highload_cup.Common.{
  arith, ℕ, ◌+◌, ◌≡◌, ◌∙◌, ap, refl, Bool, List, [], ◌∷◌, ◌++◌, Bytes, length, All,
}
use highload_cup.Http.Version.{Version}
use highload_cup.Http.Message.{Message}
use highload_cup.Http.Message.Parse.{going, returned, parsed, step_in, parse_loop}

module _ (split : Bytes → Bytes → List Bytes) (unset : Version) (req : Bool) where
  -- A byte that changes nothing.
  abbrev pub Passes : Message → ℕ → Type 0
  Passes m b = (count : ℕ) → step_in split unset req m.stage b count m ≡ going m

  pub step_going :
      (rest : Bytes) (b count : ℕ) (m m' : Message)
      → step_in split unset req m.stage b count m ≡ going m'
      → parse_loop split unset req (b ∷ rest) count m
        ≡ parse_loop split unset req rest (count + 1) m'
  unfolding parse_loop
  step_going rest b count m m' e = rw (e, parse_loop) refl

  pub step_returned :
      (rest : Bytes) (b count : ℕ) (m m' : Message) (res : Bool)
      → step_in split unset req m.stage b count m ≡ returned res m'
      → parse_loop split unset req (b ∷ rest) count m ≡ parsed res m'
  unfolding parse_loop
  step_returned rest b count m m' res e = rw (e, parse_loop) refl

  pub skip :
      (w rest : Bytes) (count : ℕ) (m : Message)
      → All (Passes m) w
      → parse_loop split unset req (w ++ rest) count m
        ≡ parse_loop split unset req rest (count + length w) m
  skip [] rest count m h = ap (λ n. parse_loop split unset req rest n m) (omega arith)
  skip (b ∷ w) rest count m (hb, h) =
      step_going (w ++ rest) b count m m (hb count)
      ∙ skip w rest (count + 1) m h
      ∙ ap (λ n. parse_loop split unset req rest n m) (omega arith)
