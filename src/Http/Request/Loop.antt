-- ===== src/Http/Request/Loop.antt =====
-- The loop of `parse` in a buffer that it does not write to. `Written` joins it to the loop that
-- writes.
use highload_cup.Common.{ℕ, ◌+◌, true, [], ◌∷◌, Bytes}
use highload_cup.Http.Request.{
  Parser, going, returned, thrown, step_method, step_path, step_options, step_header, step_body,
  step_in, Outcome, parsed, exception,
}

unfoldable pub read_loop : Bytes → Bytes → ℕ → Parser → Outcome
unfolding step_method step_path step_options step_header step_body
read_loop raw [] count p = parsed true p.proto raw
read_loop raw (b ∷ todo) count p = elim (step_in p.state raw p b count) [
  | going p' ↦ read_loop raw todo (count + 1) p'
  | returned res proto ↦ parsed res proto raw
  | thrown e ↦ exception e
]
