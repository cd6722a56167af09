-- ===== src/Util/Text/Trim.antt =====
-- What `trim` takes away.
use highload_cup.Common.{
  arith, ℕ, ◌+◌, ◌≡◌, refl, ap, ◌∙◌, true, false, [], ◌∷◌, ◌++◌, Option, none, some, Bytes, length,
  length-append, take, drop, drop-length-append, take-length-append, All, append_assoc,
  if◌then◌else◌,
}
use highload_cup.Util.Text.{is_in, first_not_of, last_not_of, trim}

abbrev pub IsIn : Bytes → ℕ → Type 0
IsIn set b = is_in set b ≡ true

first_not_of-append :
    (set a s : Bytes) (b i : ℕ)
    → All (IsIn set) a
    → is_in set b ≡ false
    → first_not_of set (a ++ b ∷ s) i ≡ some (i + length a)
first_not_of-append set [] s b i h e = rw e (ap some (omega arith))
first_not_of-append set (c ∷ a) s b i (hc, h) e =
    rw hc (first_not_of-append set a s b (i + 1) h e ∙ ap some (omega arith))

first_not_of-none : (set a : Bytes) (i : ℕ) → All (IsIn set) a → first_not_of set a i ≡ none
first_not_of-none set [] i h = refl
first_not_of-none set (c ∷ a) i (hc, h) = rw hc (first_not_of-none set a (i + 1) h)

last_not_of-all :
    (set s : Bytes) (i : ℕ) (found : Option ℕ)
    → All (IsIn set) s
    → last_not_of set s i found ≡ found
last_not_of-all set [] i found h = refl
last_not_of-all set (c ∷ s) i found (hc, h) = rw hc (last_not_of-all set s (i + 1) found h)

last_not_of-append :
    (set a s : Bytes) (b i : ℕ) (found : Option ℕ)
    → is_in set b ≡ false
    → All (IsIn set) s
    → last_not_of set (a ++ b ∷ s) i found ≡ some (i + length a)
last_not_of-append set [] s b i found e h =
    rw (last_not_of, e) (last_not_of-all set s (i + 1) (some i) h ∙ ap some (omega arith))
last_not_of-append set (c ∷ a) s b i found e h =
    last_not_of-append set a s b (i + 1) (if is_in set c then found else some i) e h
    ∙ ap some (omega arith)

trim-found :
    (line set temp : Bytes) (i n : ℕ)
    → first_not_of set line 0 ≡ some i
    → drop i line ≡ temp
    → last_not_of set temp 0 none ≡ some n
    → trim line set ≡ take (n + 1) temp
unfolding trim
trim-found line set temp i n e f g = rw (e, f, g) refl

-- A text between bytes of the set on both sides is what `trim` leaves of them, if its own first and
-- last bytes are not in the set.
pub trim-between :
    (set front mid back : Bytes) (b c : ℕ)
    → All (IsIn set) front
    → All (IsIn set) back
    → is_in set b ≡ false
    → is_in set c ≡ false
    → trim (front ++ ((b ∷ mid ++ c ∷ []) ++ back)) set ≡ b ∷ mid ++ c ∷ []
trim-between set front mid back b c hf hb eb ec =
    let core = b ∷ mid ++ c ∷ [] in
    let size : length (b ∷ mid) + 1 ≡ length core =
      omega (arith, length-append (b ∷ mid) (c ∷ [])) in
    trim-found (front ++ (core ++ back)) set (core ++ back) (length front) (length (b ∷ mid))
      (first_not_of-append set front (mid ++ c ∷ [] ++ back) b 0 hf eb ∙ ap some (omega arith))
      (drop-length-append front (core ++ back))
      (ap (λ x. last_not_of set x 0 none) (append_assoc (b ∷ mid) (c ∷ []) back)
        ∙ last_not_of-append set (b ∷ mid) back c 0 none ec hb
        ∙ ap some (omega arith))
    ∙ ap (λ x. take x (core ++ back)) size
    ∙ take-length-append core back

-- A text of bytes of the set alone becomes empty.
pub trim-nil : (set s : Bytes) → All (IsIn set) s → trim s set ≡ []
unfolding trim
trim-nil set s h = rw (first_not_of-none set s 0 h) refl
