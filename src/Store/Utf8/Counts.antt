-- ===== src/Store/Utf8/Counts.antt =====
-- On valid texts the loops of `length_utf8` and `offset_utf8` end.
use highload_cup.Common.{
  arith, ℕ, zero, suc, ◌+◌, ◌^◌, ◌<◌, ◌≤◌, ◌≡◌, refl, sym, ap, ◌∙◌, Bool, true, false, ◌&&◌, List,
  [], ◌∷◌, ◌++◌, some, ltb, lt→ltb, Bytes, length, length-append, drop, drop-length-append, All,
  append_assoc, append-nil,
}
use highload_cup.Store.Utf8.{
  mblen, sequence, continued, advance, utf8_loop, length_utf8, offset_loop, offset_utf8,
}

-- The bytes of one character, which `mblen` measures whatever follows.
pub record IsChar (c : Bytes) : Type 0 where
  pub some_bytes : 0 < length c
  pub measured : (rest : Bytes) → mblen (c ++ rest) ≡ some (length c)

abbrev pub concat : List Bytes → Bytes
concat [] = []
concat (c ∷ cs) = c ++ concat cs

-- One character of ASCII but the zero, and one of two bytes.
pub ascii-IsChar : (b : ℕ) → 0 < b → b ≤ 0x7f → IsChar (b ∷ [])
unfolding mblen
ascii-IsChar b h k = record { some_bytes = omega arith; measured = λ rest. ground arith }

pub two_bytes-IsChar : (a b : ℕ) → 0xc2 ≤ a → a ≤ 0xdf → 0x80 ≤ b → b ≤ 0xbf → IsChar (a ∷ b ∷ [])
unfolding mblen sequence continued
two_bytes-IsChar a b h k i j = record { some_bytes = omega arith; measured = λ rest. ground arith }

length-concat : (cs : List Bytes) → All IsChar cs → length cs ≤ length (concat cs)
length-concat [] h = omega arith
length-concat (c ∷ cs) (hc, h) =
    let p = hc.some_bytes in omega (arith, length-append c (concat cs), length-concat cs h)

module _ (front c rest : Bytes) (hc : IsChar c) (fits : length front + length c < 2 ^ 64) where
  -- One round moves the offset behind a character.
  advance_char :
      advance (length front) (mblen (drop (length front) (front ++ (c ++ rest))))
      ≡ length front + length c
  advance_char = rw (drop-length-append front (c ++ rest), hc.measured rest) (omega arith)

  more : ltb (length front) (length (front ++ (c ++ rest))) ≡ true
  more =
      let p = hc.some_bytes in
      lt→ltb _ _ (omega (arith, length-append front (c ++ rest), length-append c rest))

ltb_irrefl : (n : ℕ) → ltb n n ≡ false
ltb_irrefl n = ground arith

&&_false : (x : Bool) → (x && false) ≡ false
&&_false true = refl
&&_false false = refl

utf8_loop-counts :
    (fuel : ℕ) (front : Bytes) (cs : List Bytes) (count : ℕ)
    → All IsChar cs
    → length (front ++ concat cs) < 2 ^ 64
    → length cs < fuel
    → utf8_loop fuel (front ++ concat cs) (length front) count ≡ some (count + length cs)
unfolding utf8_loop
utf8_loop-counts zero front cs count h fits enough = absurd (omega arith)
utf8_loop-counts (suc fuel) front [] count h fits enough =
    rw (append-nil front, ltb_irrefl (length front)) (ap some (omega arith))
utf8_loop-counts (suc fuel) front (c ∷ cs) count (hc, h) fits enough =
    let regroup = append_assoc front c (concat cs) in
    let small : length front + length c < 2 ^ 64 =
      omega (arith, length-append front (c ++ concat cs), length-append c (concat cs)) in
    rw
      (
        more front c (concat cs) hc small,
        advance_char front c (concat cs) hc small,
        ← length-append front c,
        ← regroup,
      )
      (utf8_loop-counts fuel (front ++ c) cs (count + 1) h (rw regroup fits) (omega arith)
        ∙ ap some (omega arith))

offset_loop-counts :
    (fuel : ℕ) (front : Bytes) (cs : List Bytes) (rest : Bytes) (n : ℕ)
    → All IsChar cs
    → length (front ++ (concat cs ++ rest)) < 2 ^ 64
    → length cs < fuel
    → offset_loop fuel (front ++ (concat cs ++ rest)) (n + length cs) (length front) n
      ≡ some (length front + length (concat cs))
unfolding offset_loop
offset_loop-counts zero front cs rest n h fits enough = absurd (omega arith)
offset_loop-counts (suc fuel) front [] rest n h fits enough =
    let same : n + 0 ≡ n = omega arith in
    rw (same, ltb_irrefl n, &&_false (ltb (length front) (length (front ++ rest))))
      (ap some (omega arith))
offset_loop-counts (suc fuel) front (c ∷ cs) rest n (hc, h) fits enough =
    let behind = append_assoc c (concat cs) rest in
    let regroup = append_assoc front c (concat cs ++ rest) in
    let size : length (front ++ (c ++ (concat cs ++ rest))) < 2 ^ 64 = rw behind at fits in
    let small : length front + length c < 2 ^ 64 = omega (
      arith,
      length-append front (c ++ (concat cs ++ rest)),
      length-append c (concat cs ++ rest),
    ) in
    let count : n + suc (length cs) ≡ n + 1 + length cs = omega arith in
    rw
      (
        behind,
        more front c (concat cs ++ rest) hc small,
        lt→ltb n (n + suc (length cs)) (omega arith),
        advance_char front c (concat cs ++ rest) hc small,
        ← length-append front c,
        ← regroup,
        count,
      )
      (offset_loop-counts fuel (front ++ c) cs rest (n + 1) h (rw regroup size) (omega arith)
        ∙ ap some (omega (arith, length-append front c, length-append c (concat cs))))

-- On a text of characters (none of them a zero byte) of less than 2^64 bytes the loop ends, and
-- `length_utf8` is the number of the characters.
pub length_utf8-concat :
    (cs : List Bytes)
    → All IsChar cs
    → length (concat cs) < 2 ^ 64
    → length_utf8 (concat cs) ≡ some (length cs)
unfolding length_utf8
length_utf8-concat cs h fits =
    utf8_loop-counts (suc (length (concat cs))) [] cs 0 h fits (omega (arith, length-concat cs h))
    ∙ ap some (omega arith)

-- On a text that starts with some characters, less than 2^64 bytes long, the loop ends too, and
-- `offset_utf8` is the number of bytes of those characters, whatever follows them.
pub offset_utf8-concat :
    (cs : List Bytes) (rest : Bytes)
    → All IsChar cs
    → length (concat cs ++ rest) < 2 ^ 64
    → offset_utf8 (concat cs ++ rest) (length cs) ≡ some (length (concat cs))
unfolding offset_utf8
offset_utf8-concat cs rest h fits =
    let zero_plus : 0 + length cs ≡ length cs = omega arith in
    ap (λ n. offset_loop (suc (length (concat cs ++ rest))) (concat cs ++ rest) n 0 0)
      (sym zero_plus)
    ∙ offset_loop-counts (suc (length (concat cs ++ rest))) [] cs rest 0 h fits
        (omega (arith, length-concat cs h, length-append (concat cs) rest))
    ∙ ap some (omega arith)
