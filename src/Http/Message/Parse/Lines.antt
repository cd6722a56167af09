-- ===== src/Http/Message/Parse/Lines.antt =====
-- The header lines that `to_raw` writes, read by `parse`.
use highload_cup.Common.{
  arith, ℕ, ◌+◌, ◌-◌, ◌<◌, ◌≤◌, ◌≡◌, ◌≢◌, ◌∙◌, ap, refl, sym, Bool, true, false, List, [], ◌∷◌,
  ◌++◌, map, ltb, lt→ltb, leb, Bytes, codes, bytes_eq, length, length-append, slice, slice-append,
  append_assoc, All, ok,
}
use highload_cup.Http.Version.{Version}
use highload_cup.Http.Message.{Message, in_header, add_header}
use highload_cup.Http.Message.Raw.{line_end}
use highload_cup.Http.Message.Parse.{
  tolower, step_header, end_line, store_line, add_cookies, parse_loop, going,
}
use highload_cup.Http.Message.Parse.Steps.{Passes, step_going, skip}

-- A byte of a name, and one of a value.
abbrev pub IsValueByte : ℕ → Type 0
IsValueByte b = (b ≢ b'\n') × (b ≢ b'\r')

abbrev pub IsNameByte : ℕ → Type 0
IsNameByte b = IsValueByte b × (b ≢ b':')

-- A message that is read in the header.
abbrev pub in_line : Message → Bool → Message
in_line m flag = record m { stage = in_header; flag_2n = flag }

-- The line is stored: its name in small letters, its value as it is.
abbrev pub stored : Message → Bytes → Bytes → Message
stored m key v = add_header m (map tolower key) v

store_line-stored :
    (count : ℕ) (key v : Bytes) (m : Message)
    → leb (length m.raw) m.cvalue ≡ false
    → ltb count m.cvalue ≡ false
    → slice m.raw m.current (m.cvalue - m.current - 2) ≡ key
    → slice m.raw m.cvalue (count - m.cvalue) ≡ v
    → bytes_eq (map tolower key) (codes "cookie") ≡ false
    → store_line count m ≡ ok (stored m key v)
unfolding store_line add_cookies
store_line-stored count key v m inside ordered name val plain =
    rw (store_line, inside, ordered, name, val, add_cookies, plain) refl

-- Behind the line, with the flag that its end has set.
abbrev pub behind_line : Message → ℕ → Bytes → Bytes → Message
behind_line m from key v =
    in_line
      (record (stored m key v) {
        cvalue = from + length key + 2;
        current = from + length key + 2 + length v + 2;
      })
      true

module _ (before key v rest : Bytes) (m : Message)
    (raw : m.raw ≡ before ++ (key ++ (codes ": " ++ (v ++ (line_end ++ rest)))))
    (at : m.current ≡ length before) where
  abbrev c : ℕ
  c = length before + length key + 2

  length_raw : length m.raw ≡ c + length v + 2 + length rest
  length_raw = rw raw (
      omega (
        arith,
        length-append before (key ++ (codes ": " ++ (v ++ (line_end ++ rest)))),
        length-append key (codes ": " ++ (v ++ (line_end ++ rest))),
        length-append v (line_end ++ rest),
      ))

  name_slice : slice m.raw m.current (c - m.current - 2) ≡ key
  name_slice =
      rw (raw, at)
        (slice-append before key (codes ": " ++ (v ++ (line_end ++ rest))) (length before)
          (c - length before - 2) refl (omega arith))

  value_slice : slice m.raw c (c + length v - c) ≡ v
  value_slice =
      let front = before ++ (key ++ codes ": ") in
      let split_raw : m.raw ≡ front ++ (v ++ (line_end ++ rest)) =
        raw
        ∙ ap (λ t. before ++ t) (sym (append_assoc key (codes ": ") (v ++ (line_end ++ rest))))
        ∙ sym (append_assoc before (key ++ codes ": ") (v ++ (line_end ++ rest))) in
      rw split_raw (
        slice-append front v (line_end ++ rest) c (c + length v - c)
          (omega (arith, length-append before (key ++ codes ": "), length-append key (codes ": ")))
          (omega arith))

  -- The carriage return behind the value.
  return_read :
      (w : Message)
      → w.raw ≡ m.raw
      → w.current ≡ m.current
      → w.cvalue ≡ c
      → bytes_eq (map tolower key) (codes "cookie") ≡ false
      → store_line (c + length v) w ≡ ok (stored w key v)
  return_read w e f g plain =
      store_line-stored (c + length v) key v w (rw (e, g, length_raw) (ground arith))
        (rw g (ground arith)) (rw (e, f, g) name_slice) (rw (e, g) value_slice) plain

module _ (split : Bytes → Bytes → List Bytes) (unset : Version) (req : Bool) where
  name-Passes :
      (w : Bytes) (m : Message)
      → All IsNameByte w
      → All (Passes split unset req (in_line m false)) w
  unfolding step_header
  name-Passes [] m h = tt
  name-Passes (b ∷ w) m (hb, h) = ((λ count. ground arith), name-Passes w m h)

  value-Passes :
      (w : Bytes) (m : Message)
      → m.current ≤ m.cvalue
      → All IsValueByte w
      → All (Passes split unset req (in_line m false)) w
  unfolding step_header
  value-Passes [] m le h = tt
  value-Passes (b ∷ w) m le (hb, h) = ((λ count. ground arith), value-Passes w m le h)

  name_begins :
      (b count : ℕ) (m : Message) (flag : Bool)
      → IsNameByte b
      → step_header req b count (in_line m flag) ≡ going (in_line m false)
  unfolding step_header
  name_begins b count m flag h = ground arith

  colon_read :
      (count : ℕ) (m : Message)
      → m.cvalue < m.current
      → step_header req b':' count (in_line m false)
        ≡ going (in_line (record m { cvalue = count + 2 }) false)
  unfolding step_header
  colon_read count m h = rw (lt→ltb m.cvalue m.current h) refl

  -- The end of a line that has a name, and the line feed behind it.
  end_read :
      (count : ℕ) (m m' : Message)
      → m.current + 2 < m.cvalue
      → store_line count (in_line m false) ≡ ok m'
      → step_header req b'\r' count (in_line m false) ≡ going (record m' { current = count + 1 })
  unfolding step_header end_line
  end_read count m m' h e = rw (lt→ltb (m.current + 2) m.cvalue h, e) refl

  feed_read :
      (count : ℕ) (m : Message)
      → m.cvalue ≤ m.current
      → step_header req b'\n' count (in_line m false)
        ≡ going (record (in_line m true) { current = count + 1 })
  unfolding step_header end_line
  feed_read count m h =
      let short : ltb (m.current + 2) m.cvalue ≡ false = ground arith in rw short refl

  -- One line, at whose start the reader stands.
  pub line_read :
      (before key v rest : Bytes) (k0 : ℕ) (m : Message) (flag : Bool)
      → m.raw ≡ before ++ ((k0 ∷ key) ++ (codes ": " ++ (v ++ (line_end ++ rest))))
      → m.current ≡ length before
      → m.cvalue < m.current
      → All IsNameByte (k0 ∷ key)
      → All IsValueByte v
      → bytes_eq (map tolower (k0 ∷ key)) (codes "cookie") ≡ false
      → parse_loop split unset req
          ((k0 ∷ key) ++ (codes ": " ++ (v ++ (line_end ++ rest))))
          (length before)
          (in_line m flag)
        ≡ parse_loop split unset req rest
            (length before + length (k0 ∷ key) + 2 + length v + 2)
            (behind_line m (length before) (k0 ∷ key) v)
  line_read before key v rest k0 m flag raw at old (h0, hk) hv plain =
      let n = length before + length (k0 ∷ key) in
      let m1 : Message = record m { cvalue = n + 2 } in
      let m2 : Message = record (stored (in_line m1 false) (k0 ∷ key) v) {
        current = n + 2 + length v + 1;
      } in
      step_going split unset req _ k0 (length before) (in_line m flag) (in_line m false)
        (name_begins k0 (length before) m flag h0)
      ∙ skip split unset req key _ (length before + 1) (in_line m false) (name-Passes key m hk)
      ∙ ap
          (λ i.
            parse_loop split unset req (codes ": " ++ (v ++ (line_end ++ rest))) i
              (in_line m false))
          (omega arith)
      ∙ step_going split unset req _ b':' n (in_line m false) (in_line m1 false)
          (colon_read n m old)
      ∙ skip split unset req (b' ' ∷ v) _ (n + 1) (in_line m1 false)
          (value-Passes (b' ' ∷ v) m1 (omega arith) ((omega arith, omega arith), hv))
      ∙ ap (λ i. parse_loop split unset req (line_end ++ rest) i (in_line m1 false)) (omega arith)
      ∙ step_going split unset req _ b'\r' (n + 2 + length v) (in_line m1 false) m2 (
          end_read (n + 2 + length v) m1 _ (omega arith)
            (return_read before (k0 ∷ key) v rest m raw at (in_line m1 false) refl refl refl plain))
      ∙ step_going split unset req rest b'\n' (n + 2 + length v + 1) m2
          (behind_line m (length before) (k0 ∷ key) v)
          (feed_read (n + 2 + length v + 1) m2 (omega arith)
            ∙ ap (λ i. going (record (in_line m2 true) { current = i })) (omega arith))
      ∙ ap (λ i. parse_loop split unset req rest i (behind_line m (length before) (k0 ∷ key) v))
          (omega arith)
