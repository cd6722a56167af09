-- ===== src/Http/Request/Header.antt =====
-- The header of a POST request, read by `parse`.
use highload_cup.Common.{
  arith, ℕ, ◌+◌, ◌≡◌, ◌≢◌, refl, sym, ap, subst, ◌∙◌, Bool, true, false, ◌&&◌, List, [], ◌∷◌, ◌++◌,
  ltb, ◌==◌, Bool-cases, inl, inr, Bytes, codes, length, length-append, All, append_assoc,
}
use highload_cup.Http.Method.{is_get, post}
use highload_cup.Http.Request.{
  in_header, in_body, Proto, Parser, going, returned, step_in, step_header, step_body, parsed,
  is_newline,
}
use highload_cup.Http.Request.Loop.{read_loop}
use highload_cup.Http.Request.Steps.{IsLineByte, step_going, step_returned}

-- The reader is in the header, with a flag, the place of its last line end, and the object.
abbrev pub InHeader : Bool → ℕ → Proto → Parser → Type 0
InHeader flag n proto p =
    (p.state ≡ in_header) × (p.flag_2n ≡ flag) × (p.current ≡ n) × (p.proto ≡ proto)

-- A header line: it is not empty, has no line end, and does not begin with a colon.
abbrev pub IsLine : Bytes → Type 0
IsLine [] = ⊥
IsLine (b ∷ line) = (b ≢ b':') × All IsLineByte (b ∷ line)

abbrev pub header_text : List Bytes → Bytes
header_text [] = []
header_text (line ∷ lines) = line ++ (codes "\r\n" ++ header_text lines)

module _ (raw : Bytes) (proto : Proto) where
  first_read :
      (b n count : ℕ) (p : Parser) (flag : Bool)
      → IsLineByte b
      → b ≢ b':'
      → InHeader flag n proto p
      → (p' : Parser) × (step_in p.state raw p b count ≡ going p') × InHeader false n proto p'
  unfolding step_header
  first_read b n count p flag plain other (at, f, c, e) =
      (record p { flag_2n = false }, rw at (ground arith), (at, refl, c, e))

  later_read :
      (b n count : ℕ) (p : Parser)
      → IsLineByte b
      → InHeader false n proto p
      → (p' : Parser) × (step_in p.state raw p b count ≡ going p') × InHeader false n proto p'
  unfolding step_header
  later_read b n count p plain (at, f, c, e) =
      elim (Bool-cases (b == b':' && ltb p.cvalue p.current)) [
        | inl colon ↦ (record p { cvalue = count + 2 }, rw at (ground arith), (at, f, c, e))
        | inr other ↦ (record p { flag_2n = false }, rw at (ground arith), (at, refl, c, e))
      ]

  rest_read :
      (w rest : Bytes) (n count : ℕ) (p : Parser)
      → All IsLineByte w
      → InHeader false n proto p
      → (p' : Parser) × (read_loop raw (w ++ rest) count p
          ≡ read_loop raw rest (count + length w) p')
        × InHeader false n proto p'
  rest_read [] rest n count p h k = (p, ap (λ i. read_loop raw rest i p) (omega arith), k)
  rest_read (b ∷ w) rest n count p (hb, h) k =
      let (p1, reads, k1) = later_read b n count p hb k in
      let (p2, more, k2) = rest_read w rest n (count + 1) p1 h k1 in
      (
        p2,
        step_going raw (w ++ rest) b count p p1 reads
            ∙ more
            ∙ ap (λ i. read_loop raw rest i p2) (omega arith),
        k2,
      )

  -- The line feed behind the line of the version, and the one behind a line of the header.
  pub feed_read :
      (count : ℕ) (p : Parser)
      → p.state ≡ in_header
      → p.flag_2n ≡ false
      → step_in p.state raw p b'\n' count ≡ going (record p { flag_2n = true; current = count + 1 })
  unfolding step_header
  feed_read count p at f = rw (at, f) refl

  return_read :
      (count : ℕ) (p : Parser)
      → p.state ≡ in_header
      → step_in p.state raw p b'\r' count ≡ going (record p { current = count + 1 })
  unfolding step_header
  return_read count p at = rw at refl

  -- The line feed of an empty line.
  blank_read :
      (n : ℕ) (p : Parser)
      → p.state ≡ in_header
      → p.flag_2n ≡ true
      → p.proto.method ≡ post
      → step_in p.state raw p b'\n' (n + 1) ≡ going (record p { state = in_body; current = n + 2 })
  unfolding step_header
  blank_read n p at f posts =
      let no_get : is_get p.proto.method ≡ false = rw posts refl in
      rw (at, f, no_get)
        (ap (λ i. going (record p { state = in_body; flag_2n = true; current = i })) (omega arith))

  first_body_byte :
      (b count : ℕ) (p : Parser)
      → p.state ≡ in_body
      → p.proto.method ≡ post
      → IsLineByte b
      → step_in p.state raw p b count ≡ returned true (record p.proto { body_at = p.current })
  unfolding step_body
  first_body_byte b count p at posts plain =
      let no_line : is_newline b ≡ false = ground arith in rw (at, no_line, posts) refl

  -- A line end in the header, behind a line that was not empty.
  end_read :
      (n count : ℕ) (rest : Bytes) (p : Parser)
      → InHeader false n proto p
      → (p' : Parser) × (read_loop raw (codes "\r\n" ++ rest) count p
          ≡ read_loop raw rest (count + 2) p')
        × InHeader true (count + 2) proto p'
  unfolding step_header
  end_read n count rest p (at, f, c, e) =
      let p1 : Parser = record p { current = count + 1 } in
      let p2 : Parser = record p { flag_2n = true; current = count + 2 } in
      (
        p2,
        step_going raw (b'\n' ∷ rest) b'\r' count p p1 (rw at refl)
            ∙ step_going raw rest b'\n' (count + 1) p1 p2 (
                rw (at, f)
                  (ap (λ i. going (record p2 { state = in_header; current = i })) (omega arith)))
            ∙ ap (λ i. read_loop raw rest i p2) (omega arith),
        (at, refl, refl, e),
      )

  pub lines_read :
      (lines : List Bytes) (rest : Bytes) (n : ℕ) (p : Parser)
      → All IsLine lines
      → InHeader true n proto p
      → (p' : Parser) × (read_loop raw (header_text lines ++ rest) n p
          ≡ read_loop raw rest (n + length (header_text lines)) p')
        × InHeader true (n + length (header_text lines)) proto p'
  lines_read [] rest n p h k =
      let same : n + 0 ≡ n = omega arith in
      (p, ap (λ i. read_loop raw rest i p) (sym same), rw same k)
  lines_read ([] ∷ lines) rest n p (h, hs) k = absurd h
  lines_read ((b ∷ line) ∷ lines) rest n p ((other, (hb, hl)), hs) k =
      let back = header_text lines ++ rest in
      let size = length (b ∷ line) in
      let (p1, first, k1) = first_read b n n p true hb other k in
      let (p2, later, k2) = rest_read line (codes "\r\n" ++ back) n (n + 1) p1 hl k1 in
      let (p3, ends, k3) = end_read n (n + 1 + length line) back p2 k2 in
      let (p4, more, k4) = lines_read lines rest (n + 1 + length line + 2) p3 hs k3 in
      let total : n + 1 + length line + 2 + length (header_text lines)
          ≡ n + length (header_text ((b ∷ line) ∷ lines)) =
        omega (arith, length-append (b ∷ line) (codes "\r\n" ++ header_text lines)) in
      (
        p4,
        ap (λ s. read_loop raw s n p)
              (append_assoc (b ∷ line) (codes "\r\n" ++ header_text lines) rest)
            ∙ step_going raw (line ++ (codes "\r\n" ++ back)) b n p p1 first
            ∙ later
            ∙ ends
            ∙ more
            ∙ ap (λ i. read_loop raw rest i p4) total,
        subst (λ i. InHeader true i proto p4) total k4,
      )

  -- The empty line and the first byte of the body of a POST request.
  pub body_read :
      (b n : ℕ) (rest : Bytes) (p : Parser)
      → proto.method ≡ post
      → IsLineByte b
      → InHeader true n proto p
      → read_loop raw (codes "\r\n" ++ (b ∷ rest)) n p
        ≡ parsed true (record proto { body_at = n + 2 }) raw
  body_read b n rest p posts plain (at, f, c, e) =
      let p1 : Parser = record p { current = n + 1 } in
      let p2 : Parser = record p { state = in_body; current = n + 2 } in
      step_going raw (b'\n' ∷ (b ∷ rest)) b'\r' n p p1 (return_read n p at)
      ∙ step_going raw (b ∷ rest) b'\n' (n + 1) p1 p2
          (blank_read n p1 at f (ap (λ (x : Proto). x.method) e ∙ posts))
      ∙ step_returned raw rest b (n + 1 + 1) p2 true _
          (first_body_byte b (n + 1 + 1) p2 refl (ap (λ (x : Proto). x.method) e ∙ posts) plain)
      ∙ ap (λ x. parsed true (record x { body_at = n + 2 }) raw) e
