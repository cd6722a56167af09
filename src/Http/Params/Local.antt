-- ===== src/Http/Params/Local.antt =====
-- `parse_urlencoded` reads only the text that it is given: what lies behind it in the buffer is
-- never looked at, if there is no space in the text.
use highload_cup.Common.{
  ℕ, zero, suc, ◌+◌, ◌-◌, ◌≤◌, ◌≡◌, ◌≢◌, ◌⊎◌, inl, inr, refl, ap, ◌∙◌, true, [], ◌∷◌, ◌++◌, arith,
  Bytes, length, slice, slice-append, All, Result, ok, throw, bind-eq-ok, ◌>>=◌, length-append,
  append_assoc,
}
use highload_cup.Http.Params.{Scan, field_at, hand_over, scan_step, scan, parse_urlencoded}

-- A slice of the first part of a text.
pub slice-prefix :
    (front x y : Bytes) (off n : ℕ)
    → off + n ≤ length front
    → slice (front ++ x) off n ≡ slice (front ++ y) off n
slice-prefix front x y off zero h = refl
slice-prefix [] x y off (suc n) h = absurd (omega arith)
slice-prefix (c ∷ front) x y zero (suc n) h =
    ap (λ t. c ∷ t) (slice-prefix front x y zero n (omega arith))
slice-prefix (c ∷ front) x y (suc off) (suc n) h = slice-prefix front x y off (suc n) (omega arith)

-- The variables between two bytes of a text with no space: a name that has been read ends before
-- its value starts.
abbrev IsGood : {S : Type 0} → ℕ → Scan S → Type 0
IsGood count v =
    (v.name_start ≤ count)
    × ((v.value_start ≡ 0)
        ⊎ ((v.name_start + v.name_size + 1 ≡ v.value_start) × (v.value_start ≤ count)))

module _ {S : Type 0} (front x y : Bytes) (func : S → Bytes → Bytes → S) (separator : ℕ) where
  hand_over-prefix :
      (count size : ℕ) (v : Scan S)
      → v.name_start + v.name_size ≤ length front
      → v.value_start + size ≤ length front
      → hand_over (front ++ x) (length front) func separator true count v size
        ≡ hand_over (front ++ y) (length front) func separator true count v size
  unfolding hand_over field_at
  hand_over-prefix count size v h k = rw (
    slice-prefix front x y v.name_start v.name_size h,
    slice-prefix front x y v.value_start size k,
  )

  scan_step-prefix :
      (b count : ℕ) (v : Scan S)
      → count + 1 ≤ length front
      → IsGood count v
      → scan_step (front ++ x) (length front) func separator true b v count
        ≡ scan_step (front ++ y) (length front) func separator true b v count
  unfolding scan_step
  scan_step-prefix b count v lt (le, inl e) = rw e
  scan_step-prefix b count v lt (le, inr (e, h)) = rw (
    hand_over-prefix count (count - v.value_start) v (omega arith) (omega arith),
    hand_over-prefix count (count - v.value_start + 1) v (omega arith) (omega arith),
  )

  hand_over-IsGood :
      (raw : Bytes) (off_end count size : ℕ) (v w : Scan S)
      → hand_over raw off_end func separator true count v size ≡ ok w
      → IsGood (count + 1) w
  unfolding hand_over
  hand_over-IsGood raw off_end count size v w e =
      let (field, found, returns) =
        bind-eq-ok (field_at raw true v.name_start v.name_size v.value_start size)
          (λ field. ok (record v {
            name_start = count + 1;
            value_start = 0;
            sink = func v.sink field.0 field.1;
          }))
          e in
      ground arith

  scan_step-IsGood :
      (raw : Bytes) (off_end b count : ℕ) (v w : Scan S)
      → b ≢ b' '
      → IsGood count v
      → scan_step raw off_end func separator true b v count ≡ ok w
      → IsGood (count + 1) w
  unfolding scan_step
  scan_step-IsGood raw off_end b count v w h good e = ground (
    arith,
    hand_over-IsGood raw off_end count (count - v.value_start) v w,
    hand_over-IsGood raw off_end count (count - v.value_start + 1) v w,
  )

  scan-prefix :
      (todo : Bytes) (count : ℕ) (v : Scan S)
      → All (λ b. b ≢ b' ') todo
      → count + length todo ≤ length front
      → IsGood count v
      → scan (front ++ x) (length front) func separator true todo count v
        ≡ scan (front ++ y) (length front) func separator true todo count v
  unfolding scan
  scan-prefix [] count v h le good = refl
  scan-prefix (b ∷ todo) count v (hb, h) le good =
      rw (scan_step-prefix b count v (omega arith) good) (
        go (scan_step (front ++ y) (length front) func separator true b v count) (λ w e.
          scan-prefix todo (count + 1) w h (omega arith)
            (scan_step-IsGood (front ++ y) (length front) b count v w hb good e)))
    where
      go :
          (r : Result (Scan S))
          → ((w : Scan S)
              → r ≡ ok w
              → scan (front ++ x) (length front) func separator true todo (count + 1) w
                ≡ scan (front ++ y) (length front) func separator true todo (count + 1) w)
          → (r >>= scan (front ++ x) (length front) func separator true todo (count + 1))
            ≡ (r >>= scan (front ++ y) (length front) func separator true todo (count + 1))
      go (ok w) ih = ih w refl
      go (throw f) ih = refl

-- The text `text` behind `before`, in two buffers that agree up to its end.
pub parse_urlencoded-prefix :
    {S : Type 0} (before text x y : Bytes) (func : S → Bytes → Bytes → S) (separator : ℕ) (s : S)
    → All (λ b. b ≢ b' ') text
    → parse_urlencoded
        ((before ++ text) ++ x)
        (length before)
        (length (before ++ text))
        func
        separator
        true
        s
      ≡ parse_urlencoded
          ((before ++ text) ++ y)
          (length before)
          (length (before ++ text))
          func
          separator
          true
          s
unfolding parse_urlencoded
parse_urlencoded-prefix before text x y func separator s h =
    let fits : length (before ++ text) - length before ≡ length text =
      omega (arith, length-append before text) in
    rw
      (
        fits,
        ap (λ t. slice t (length before) (length text)) (append_assoc before text x)
            ∙ slice-append before text x _ _ refl refl,
        ap (λ t. slice t (length before) (length text)) (append_assoc before text y)
            ∙ slice-append before text y _ _ refl refl,
      )
      (ap (λ r. r >>= λ w. ok w.sink)
        (scan-prefix (before ++ text) x y func separator text (length before)
          (record { name_start = length before; name_size = 0; value_start = 0; sink = s }) h
          (omega (arith, length-append before text)) (omega arith, inl refl)))
