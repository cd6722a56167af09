-- ===== src/Http/Message/Parse/Reply.antt =====
-- A reply that `to_raw` writes, read by `parse`.
use highload_cup.Common.{
  arith, ℕ, ◌+◌, ◌-◌, ◌<◌, ◌≡◌, ◌∙◌, ap, refl, true, false, List, ◌∷◌, ◌++◌, some, ltb, ◌&&◌, Bytes,
  codes, length, ok,
}
use highload_cup.Util.Numbers.{format_int}
use highload_cup.Http.Version.{Version}
use highload_cup.Http.Message.{Message, in_body, Table, find_key, header_int}
use highload_cup.Http.Message.Raw.{line_end}
use highload_cup.Http.Message.Parse.{
  going, returned, parsed, is_newline, step_header, end_line, step_body, parse_loop,
}
use highload_cup.Http.Message.Parse.Steps.{step_going, step_returned}
use highload_cup.Http.Message.Parse.Lines.{IsValueByte}
use highload_cup.Http.Message.Parse.Table.{at_line}

-- The message whose header has been read.
abbrev pub behind_header : Message → Table Bytes → ℕ → ℕ → Message
behind_header m t c n = record (at_line m t c (n + 2)) { stage = in_body }

pub not_short : (left size : ℕ) → left ≡ size → (ltb 0 size && ltb left size) ≡ false
not_short left size e = ground arith

module _ (split : Bytes → Bytes → List Bytes) (unset : Version) where
  return_read :
      (m : Message) (t : Table Bytes) (c n : ℕ)
      → c < n
      → step_header false b'\r' n (at_line m t c n) ≡ going (at_line m t c (n + 1))
  unfolding step_header end_line
  return_read m t c n h = let none_left : ltb (n + 2) c ≡ false = ground arith in rw none_left refl

  feed_read :
      (m : Message) (t : Table Bytes) (c n k : ℕ)
      → step_header false b'\n' n (at_line m t c k)
        ≡ going (record (at_line m t c (n + 1)) { stage = in_body })
  unfolding step_header
  feed_read m t c n k = refl

  body_read :
      (b count size : ℕ) (text : Bytes) (m : Message)
      → IsValueByte b
      → find_key (codes "content-length") m.headers ≡ some text
      → format_int text ≡ ok size
      → length m.raw - m.current ≡ size
      → step_body false b count m ≡ returned true (record m { content_length = size })
  unfolding step_body header_int
  body_read b count size text m plain found reads left =
      let no_line : is_newline b ≡ false = ground arith in
      let known : header_int m (codes "content-length") 0 ≡ ok size =
        rw (header_int, found, reads) refl in
      let full : (ltb 0 size && ltb (length m.raw - m.current) size) ≡ false =
        not_short (length m.raw - m.current) size left in
      rw (no_line, known, full) refl

  -- The empty line and the body.
  pub end_read :
      (m : Message) (t : Table Bytes) (c n b : ℕ) (rest text : Bytes)
      → c < n
      → IsValueByte b
      → find_key (codes "content-length") t ≡ some text
      → format_int text ≡ ok (length (b ∷ rest))
      → length m.raw ≡ n + 2 + length (b ∷ rest)
      → parse_loop split unset false (line_end ++ (b ∷ rest)) n (at_line m t c n)
        ≡ parsed true (record (behind_header m t c n) { content_length = length (b ∷ rest) })
  end_read m t c n b rest text old plain found reads size =
      step_going split unset false _ b'\r' n (at_line m t c n) (at_line m t c (n + 1))
        (return_read m t c n old)
      ∙ step_going split unset false _ b'\n' (n + 1) (at_line m t c (n + 1)) (behind_header m t c n)
          (feed_read m t c (n + 1) (n + 1)
            ∙ ap (λ i. going (record (at_line m t c i) { stage = in_body })) (omega arith))
      ∙ step_returned split unset false rest b (n + 1 + 1) (behind_header m t c n) _ true (
          body_read b (n + 1 + 1) (length (b ∷ rest)) text (behind_header m t c n) plain found reads
            (omega arith))
