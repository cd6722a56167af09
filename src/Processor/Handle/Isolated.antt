-- ===== src/Processor/Handle/Isolated.antt =====
-- The answer to what is read from a socket does not hang on what was read before.
use highload_cup.Common.{ℕ, ◌≡◌, inl, inr, refl, true, false, [], ◌∷◌, ◌++◌, Bytes, length}
use highload_cup.Http.Request.{Proto, Outcome, parsed, exception, out_of_bounds, parse, body}
use highload_cup.Http.Request.Isolated.{Alike, parse-Alike}
use highload_cup.Store.HashMap.{HashMap}
use highload_cup.Store.Libs.{Libs, Run, done, aborted}
use highload_cup.Store.State.{Base}
use highload_cup.Processor.Answers.{Reply, bad_request}
use highload_cup.Processor.Handle.{handle, serve}

module _ (libs : Libs) {d : HashMap} (b : Base d) where
  -- `serve` behind the call of `parse`.
  abbrev pub served : Outcome → Run (Base d × Reply)
  served (parsed true req buffer) = handle libs b req (body req buffer)
  served (parsed false req buffer) = done (b, bad_request)
  served (exception e) = done (b, bad_request)
  served out_of_bounds = aborted

  pub serve-served :
      (req : Proto) (buffer : Bytes) (size : ℕ)
      → serve libs b req buffer size ≡ served (parse req buffer size)
  unfolding serve
  serve-served req buffer size = go (parse req buffer size)
    where
      go :
          (o : Outcome)
          → ◌≡◌ {A = Run (Base d × Reply)}
              (elim o [
                | parsed true req' buffer' ↦ handle libs b req' (body req' buffer')
                | parsed false req' buffer' ↦ done (b, bad_request)
                | exception e ↦ done (b, bad_request)
                | out_of_bounds ↦ aborted
              ])
              (served o)
      go (parsed true req' buffer') = refl
      go (parsed false req' buffer') = refl
      go (exception e) = refl
      go out_of_bounds = refl

  handle-no_path :
      (req : Proto) (json : Bytes) → req.path ≡ [] → handle libs b req json ≡ done (b, bad_request)
  unfolding handle
  handle-no_path req json e = rw e refl

  served-Alike : (o o' : Outcome) → Alike o o' → served o ≡ served o'
  served-Alike (parsed true p raw) (parsed true p' raw') (_, same, inl e) = rw (same, e) refl
  served-Alike (parsed true p raw) (parsed true p' raw') (_, same, inr (e, e')) =
      rw (handle-no_path p (body p raw) e, handle-no_path p' (body p' raw') e') refl
  served-Alike (parsed true p raw) (parsed false p' raw') (h, _, _) = absurd cc
  served-Alike (parsed false p raw) (parsed true p' raw') (h, _, _) = absurd cc
  served-Alike (parsed false p raw) (parsed false p' raw') h = refl
  served-Alike (exception e) (exception e') h = refl
  served-Alike out_of_bounds out_of_bounds h = refl
  served-Alike (parsed _ p raw) (exception e) h = elim h [ ]
  served-Alike (parsed _ p raw) out_of_bounds h = elim h [ ]
  served-Alike (exception e) (parsed _ p raw) h = elim h [ ]
  served-Alike (exception e) out_of_bounds h = elim h [ ]
  served-Alike out_of_bounds (parsed _ p raw) h = elim h [ ]
  served-Alike out_of_bounds (exception e) h = elim h [ ]

  -- The same text in any two buffers that are longer, read into any two objects, has the same
  -- effect on the base and the same answer.
  pub serve-isolated :
      (req req' : Proto) (text old old' : Bytes) (o o' : ℕ)
      → serve libs b req (text ++ o ∷ old) (length text)
        ≡ serve libs b req' (text ++ o' ∷ old') (length text)
  serve-isolated req req' text old old' o o' =
      rw
        (
          serve-served req (text ++ o ∷ old) (length text),
          serve-served req' (text ++ o' ∷ old') (length text),
        )
        (served-Alike _ _ (parse-Alike req req' text old old' o o'))
