-- ===== src/Http/Message/Parse/Table.antt =====
-- All the header lines that `to_raw` writes, read by `parse`.
use highload_cup.Common.{
  arith, ℕ, ◌+◌, ◌<◌, ◌≡◌, ◌≢◌, ◌∙◌, ap, refl, sym, Bool, true, false, List, [], ◌∷◌, ◌++◌, map,
  Bytes, codes, bytes_eq, length, length-append, append_assoc, All,
}
use highload_cup.Http.Version.{Version}
use highload_cup.Http.Message.{Message, insert_key, Table}
use highload_cup.Http.Message.Raw.{line_end, header_loop}
use highload_cup.Http.Message.Parse.{tolower, parse_loop}
use highload_cup.Http.Message.Parse.Lines.{IsNameByte, IsValueByte, in_line, line_read}

-- A line that is read as it was written: a name, not `cookie`, without a colon, and no line ends.
abbrev pub IsHeader : Bytes × Bytes → Type 0
IsHeader (key, v) =
    (key ≢ [])
    × All IsNameByte key
    × All IsValueByte v
    × (bytes_eq (map tolower key) (codes "cookie") ≡ false)

-- The table behind the lines: names in small letters, and of two lines with one name the first.
abbrev pub add_all : Table Bytes → Table Bytes → Table Bytes
add_all [] t = t
add_all ((key, v) ∷ hs) t = add_all hs (insert_key (map tolower key) v t)

-- A message with a table of headers, at the start of a line.
abbrev pub at_line : Message → Table Bytes → ℕ → ℕ → Message
at_line m t c n = in_line (record m { headers = t; cvalue = c; current = n }) true

abbrev line_text : Bytes → Bytes → Bytes
line_text key v = key ++ (codes ": " ++ (v ++ line_end))

line_split :
    (key v rest : Bytes)
    → line_text key v ++ rest ≡ key ++ (codes ": " ++ (v ++ (line_end ++ rest)))
line_split key v rest =
    append_assoc key (codes ": " ++ (v ++ line_end)) rest
    ∙ ap (λ t. key ++ (codes ": " ++ t)) (append_assoc v line_end rest)

pub header_loop-cons :
    (key v rest : Bytes) (hs : Table Bytes)
    → header_loop ((key, v) ∷ hs) ++ rest
      ≡ key ++ (codes ": " ++ (v ++ (line_end ++ (header_loop hs ++ rest))))
unfolding header_loop
header_loop-cons key v rest hs =
    append_assoc key (codes ": " ++ (v ++ (line_end ++ header_loop hs))) rest
    ∙ ap (λ t. key ++ (codes ": " ++ t)) (append_assoc v (line_end ++ header_loop hs) rest)

length-header_loop :
    (key v : Bytes) (hs : Table Bytes)
    → length (header_loop ((key, v) ∷ hs)) ≡ length key + 2 + length v + 2 + length (header_loop hs)
unfolding header_loop
length-header_loop key v hs = omega (
  arith,
  length-append key (codes ": " ++ (v ++ (line_end ++ header_loop hs))),
  length-append v (line_end ++ header_loop hs),
)

length-line_text : (key v : Bytes) → length (line_text key v) ≡ length key + 2 + length v + 2
length-line_text key v =
    omega (arith, length-append key (codes ": " ++ (v ++ line_end)), length-append v line_end)

module _ (split : Bytes → Bytes → List Bytes) (unset : Version) (req : Bool) where
  pub lines_read :
      (hs : Table Bytes) (before rest : Bytes) (c : ℕ) (t : Table Bytes) (m : Message)
      → m.raw ≡ before ++ (header_loop hs ++ rest)
      → c < length before
      → All IsHeader hs
      → (c' : ℕ) × (c' < length before + length (header_loop hs))
        × (parse_loop split unset req
              (header_loop hs ++ rest)
              (length before)
              (at_line m t c (length before))
            ≡ parse_loop split unset req rest
                (length before + length (header_loop hs))
                (at_line m (add_all hs t) c' (length before + length (header_loop hs))))
  unfolding header_loop
  lines_read [] before rest c t m raw old h =
      (c, omega arith, ap (λ i. parse_loop split unset req rest i (at_line m t c i)) (omega arith))
  lines_read (([], v) ∷ hs) before rest c t m raw old ((full, names, values, plain), hs_ok) =
      absurd (full refl)
  lines_read ((k0 ∷ key, v) ∷ hs) before rest c t m raw old ((full, names, values, plain), hs_ok) =
      let n = length before + length (k0 ∷ key) + 2 in
      let before' = before ++ line_text (k0 ∷ key) v in
      let size : length before' ≡ n + length v + 2 =
        omega
          (arith, length-append before (line_text (k0 ∷ key) v), length-line_text (k0 ∷ key) v) in
      let raw_line = raw ∙ ap (λ s. before ++ s) (header_loop-cons (k0 ∷ key) v rest hs) in
      let raw_rest =
        raw_line
        ∙ ap (λ s. before ++ s) (sym (line_split (k0 ∷ key) v (header_loop hs ++ rest)))
        ∙ sym (append_assoc before (line_text (k0 ∷ key) v) (header_loop hs ++ rest)) in
      let (c', below, reads) =
        lines_read hs before' rest n (insert_key (map tolower (k0 ∷ key)) v t) m raw_rest
          (omega arith) hs_ok in
      let total = length-header_loop (k0 ∷ key) v hs in
      let t' = insert_key (map tolower (k0 ∷ key)) v t in
      let start = at_line m t c (length before) in
      (
        c',
        omega (arith, total),
        ap (λ s. parse_loop split unset req s (length before) start)
              (header_loop-cons (k0 ∷ key) v rest hs)
            ∙ line_read split unset req before key v (header_loop hs ++ rest) k0 start true raw_line
                refl old names values plain
            ∙ ap (λ i. parse_loop split unset req (header_loop hs ++ rest) i (at_line m t' n i))
                (sym size)
            ∙ reads
            ∙ ap (λ i. parse_loop split unset req rest i (at_line m (add_all hs t') c' i))
                (omega (arith, total)),
      )
