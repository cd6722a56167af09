-- ===== src/Http/Params/Steps.antt =====
-- The loop of `parse_urlencoded` over the pieces of a well-formed query string.
use highload_cup.Common.{
  ℕ, ◌+◌, ◌-◌, ◌<◌, ◌≡◌, ◌≢◌, refl, ap, ◌∙◌, true, [], ◌∷◌, ◌++◌, arith, Bytes, length, All, Result,
  ok,
}
use highload_cup.Http.Quote.RoundTrip.{IsPlain}
use highload_cup.Http.Params.{Scan, hand_over, scan_step, scan}

-- A list with an element ends in one.
abbrev pub Ends : Bytes → Type 0
Ends s = (i : Bytes) × (c : ℕ) × (s ≡ i ++ c ∷ [])

pub ends : (s : Bytes) → s ≢ [] → Ends s
ends [] h = absurd (h refl)
ends (c ∷ []) h = ([], c, refl)
ends (c ∷ d ∷ s) h = let (i, e, p) = ends (d ∷ s) (λ q. cc) in (c ∷ i, e, ap (λ t. c ∷ t) p)

pub All-append_left : (s t : Bytes) → All IsPlain (s ++ t) → All IsPlain s
All-append_left [] t h = tt
All-append_left (c ∷ s) t h = (h.0, All-append_left s t h.1)

pub All-append_right : (s t : Bytes) → All IsPlain (s ++ t) → All IsPlain t
All-append_right [] t h = h
All-append_right (c ∷ s) t h = All-append_right s t h.1

module _ {S : Type 0} (raw : Bytes) (off_end : ℕ) (func : S → Bytes → Bytes → S) where
  abbrev pub run : Bytes → ℕ → Scan S → Result (Scan S)
  run = scan raw off_end func b'&' true

  -- In a name every plain byte is passed over.
  pub name_byte :
      (b : ℕ) (v : Scan S) (count : ℕ)
      → IsPlain b
      → v.value_start ≡ 0
      → scan_step raw off_end func b'&' true b v count ≡ ok v
  unfolding scan_step
  name_byte b v count h e = ground arith

  pub skip_name :
      (w rest : Bytes) (count : ℕ) (v : Scan S)
      → All IsPlain w
      → v.value_start ≡ 0
      → run (w ++ rest) count v ≡ run rest (count + length w) v
  unfolding scan
  skip_name [] rest count v h e = ap (λ n. run rest n v) (omega arith)
  skip_name (b ∷ w) rest count v (hb, h) e =
      rw (name_byte b v count hb e)
        (skip_name w rest (count + 1) v h e ∙ ap (λ n. run rest n v) (omega arith))

  -- In a value too, up to the byte before the last.
  pub value_byte :
      (b : ℕ) (v : Scan S) (count : ℕ)
      → IsPlain b
      → v.value_start ≢ 0
      → count + 1 ≢ off_end
      → scan_step raw off_end func b'&' true b v count ≡ ok v
  unfolding scan_step
  value_byte b v count h e f = ground arith

  pub skip_value :
      (w rest : Bytes) (count : ℕ) (v : Scan S)
      → All IsPlain w
      → v.value_start ≢ 0
      → count + length w < off_end
      → run (w ++ rest) count v ≡ run rest (count + length w) v
  unfolding scan
  skip_value [] rest count v h e f = ap (λ n. run rest n v) (omega arith)
  skip_value (b ∷ w) rest count v (hb, h) e f =
      rw (value_byte b v count hb e (omega arith))
        (skip_value w rest (count + 1) v h e (omega arith) ∙ ap (λ n. run rest n v) (omega arith))

  pub at_equals :
      (v : Scan S) (count : ℕ)
      → v.value_start ≡ 0
      → scan_step raw off_end func b'&' true b'=' v count
        ≡ ok (record v { name_size = count - v.name_start; value_start = count + 1 })
  unfolding scan_step
  at_equals v count e = ground arith

  pub at_separator :
      (v : Scan S) (count : ℕ)
      → v.value_start ≢ 0
      → scan_step raw off_end func b'&' true b'&' v count
        ≡ hand_over raw off_end func b'&' true count v (count - v.value_start)
  unfolding scan_step
  at_separator v count e = ground arith

  pub at_last :
      (b : ℕ) (v : Scan S) (count : ℕ)
      → IsPlain b
      → v.value_start ≢ 0
      → count + 1 ≡ off_end
      → scan_step raw off_end func b'&' true b v count
        ≡ hand_over raw off_end func b'&' true count v (count - v.value_start + 1)
  unfolding scan_step
  at_last b v count h e f = ground arith
