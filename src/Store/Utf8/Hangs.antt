-- ===== src/Store/Utf8/Hangs.antt =====
-- A text on which the loop of `length_utf8` does not end.
use highload_cup.Common.{
  arith, ℕ, zero, suc, ◌+◌, ◌<◌, ◌≤◌, ◌≡◌, refl, ◌∷◌, none, Bytes, length, lt→ltb,
}
use highload_cup.Store.Utf8.{mblen, utf8_loop}
use highload_cup.Store.Utf8.Counts.{ascii-IsChar}

-- Behind an ASCII character that is not a zero, bytes that start no character send the loop back to
-- that character: with no number of rounds does it end.
pub utf8_loop_hangs :
    (c bad : ℕ) (rest : Bytes) (fuel count : ℕ)
    → 0 < c
    → c ≤ 0x7f
    → mblen (bad ∷ rest) ≡ none
    → (utf8_loop fuel (c ∷ bad ∷ rest) 0 count ≡ none)
      × (utf8_loop fuel (c ∷ bad ∷ rest) 1 count ≡ none)
unfolding utf8_loop
utf8_loop_hangs c bad rest zero count h k e = (refl, refl)
utf8_loop_hangs c bad rest (suc fuel) count h k e =
    let (at_0, at_1) = utf8_loop_hangs c bad rest fuel (count + 1) h k e in
    (
      rw ((ascii-IsChar c h k).measured (bad ∷ rest))
          (rw (lt→ltb 0 (suc (suc (length rest))) (omega arith)) at_1),
      rw e (ground arith),
    )
