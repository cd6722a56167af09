-- ===== src/Http/Message/Parse/RequestEnd.antt =====
-- The end of a request, read by `parse`.
use highload_cup.Common.{
  arith, ℕ, ap, some, ◌-◌, ◌&&◌, ◌++◌, ◌∷◌, length, ok, ◌+◌, ◌<◌, ◌≡◌, ◌∙◌, refl, true, false, List,
  ltb, Bytes, codes,
}
use highload_cup.Http.Method.{get, post, is_post}
use highload_cup.Util.Numbers.{format_int}
use highload_cup.Http.Message.Body.{parse_body}
use highload_cup.Http.Message.Raw.{line_end}
use highload_cup.Http.Message.Parse.Lines.{IsValueByte}
use highload_cup.Http.Message.Parse.Reply.{behind_header, not_short}
use highload_cup.Http.Version.{Version}
use highload_cup.Http.Message.{Message, Table, in_header, in_body, find_key, header_int}
use highload_cup.Http.Message.Parse.{
  going, returned, parsed, next_of, step_in, step_header, step_body, is_newline, end_line,
  parse_loop,
}
use highload_cup.Http.Message.Parse.Steps.{step_going, step_returned}
use highload_cup.Http.Message.Parse.Table.{at_line}

module _ (split : Bytes → Bytes → List Bytes) (unset : Version) where
  return_read :
      (n c : ℕ) (t : Table Bytes) (m : Message)
      → c < n
      → step_in split unset true in_header b'\r' n (at_line m t c n) ≡ going (at_line m t c (n + 1))
  unfolding step_header end_line
  return_read n c t m h = let short : ltb (n + 2) c ≡ false = ground arith in rw short refl

  feed_read :
      (n c : ℕ) (t : Table Bytes) (m : Message)
      → m.method ≡ get
      → step_in split unset true in_header b'\n' n (at_line m t c n)
        ≡ returned true (at_line m t c n)
  unfolding step_header
  feed_read n c t m e = rw e refl

  post_feed_read :
      (n c : ℕ) (t : Table Bytes) (m : Message)
      → m.method ≡ post
      → step_in split unset true in_header b'\n' n (at_line m t c n)
        ≡ going (record (at_line m t c (n + 1)) { stage = in_body })
  unfolding step_header
  post_feed_read n c t m e = rw e refl

  -- The empty line of a GET request ends it; the one behind it is left unread.
  pub request_end_read :
      (n c : ℕ) (t : Table Bytes) (m : Message)
      → c < n
      → m.method ≡ get
      → parse_loop split unset true (codes "\r\n\r\n") n (at_line m t c n)
        ≡ parsed true (at_line m t c (n + 1))
  request_end_read n c t m h e =
      step_going split unset true _ b'\r' n (at_line m t c n) (at_line m t c (n + 1))
        (return_read n c t m h)
      ∙ step_returned split unset true _ b'\n' (n + 1) (at_line m t c (n + 1)) _ true
          (feed_read (n + 1) c t m e)

module _ (split : Bytes → Bytes → List Bytes) (unset : Version) where
  -- The empty line behind the header of a POST request.
  empty_line_read :
      (n c : ℕ) (t : Table Bytes) (m : Message) (body : Bytes)
      → c < n
      → m.method ≡ post
      → parse_loop split unset true (line_end ++ body) n (at_line m t c n)
        ≡ parse_loop split unset true body (n + 2) (behind_header m t c n)
  empty_line_read n c t m body h e =
      step_going split unset true _ b'\r' n (at_line m t c n) (at_line m t c (n + 1))
        (return_read split unset n c t m h)
      ∙ step_going split unset true body b'\n' (n + 1) (at_line m t c (n + 1))
          (behind_header m t c n)
          (post_feed_read split unset (n + 1) c t m e
            ∙ ap (λ i. going (record (at_line m t c i) { stage = in_body })) (omega arith))
      ∙ ap (λ i. parse_loop split unset true body i (behind_header m t c n)) (omega arith)

  -- The first byte of the body: its length is known, it is there in full, and it is parsed.
  body_read :
      (b count size : ℕ) (text : Bytes) (m m' : Message)
      → IsValueByte b
      → m.stage ≡ in_body
      → m.method ≡ post
      → find_key (codes "content-length") m.headers ≡ some text
      → format_int text ≡ ok size
      → length m.raw - m.current ≡ size
      → parse_body (record m { content_length = size }) ≡ ok m'
      → step_in split unset true m.stage b count m ≡ returned true m'
  unfolding step_body header_int
  body_read b count size text m m' plain stage e found reads left parses =
      let no_line : is_newline b ≡ false = ground arith in
      let known : header_int m (codes "content-length") 0 ≡ ok size =
        rw (header_int, found, reads) refl in
      let full : (ltb 0 size && ltb (length m.raw - m.current) size) ≡ false =
        not_short (length m.raw - m.current) size left in
      ap (λ st. step_in split unset true st b count m) stage
      ∙ rw (no_line, known, full, ap is_post e) (ap (λ r. next_of r (λ w. returned true w)) parses)

  -- The empty line and the body of a POST request.
  pub post_end_read :
      (n c b : ℕ) (t : Table Bytes) (m m' : Message) (rest text : Bytes)
      → c < n
      → IsValueByte b
      → m.method ≡ post
      → find_key (codes "content-length") t ≡ some text
      → format_int text ≡ ok (length (b ∷ rest))
      → length m.raw ≡ n + 2 + length (b ∷ rest)
      → parse_body (record (behind_header m t c n) { content_length = length (b ∷ rest) }) ≡ ok m'
      → parse_loop split unset true (line_end ++ (b ∷ rest)) n (at_line m t c n) ≡ parsed true m'
  post_end_read n c b t m m' rest text h plain e found reads size parses =
      empty_line_read n c t m (b ∷ rest) h e
      ∙ step_returned split unset true rest b (n + 2) (behind_header m t c n) m' true (
          body_read b (n + 2) (length (b ∷ rest)) text (behind_header m t c n) m' plain refl e found
            reads (omega arith) parses)
