-- ===== src/Http/Message/Replies.antt =====
-- The text of a reply, read by `http_proto::parse`: its three parts, and the object behind each.
use highload_cup.Common.{
  arith, ℕ, ◌+◌, ◌^◌, ◌<◌, ◌≡◌, ◌≢◌, ◌∙◌, ap, refl, sym, true, false, List, [], ◌∷◌, ◌++◌, Bytes,
  codes, length, length-append, drop, drop-length-append, append_assoc, All, ok,
}
use highload_cup.Common.Text.{to_string}
use highload_cup.Util.Numbers.Printed.{format_int-to_string}
use highload_cup.Http.Method.{Method}
use highload_cup.Http.Status.{Status, unknown, is_unknown, status_to_str}
use highload_cup.Http.Status.Words.{status_words, status_plain, avoids}
use highload_cup.Http.Version.{Version, version_of}
use highload_cup.Http.Message.{Message, in_version, construct, set_raw, insert_key, Table}
use highload_cup.Http.Message.Raw.{line_end, header_loop}
use highload_cup.Http.Message.Raw.Lines.{lines_of, reply_text}
use highload_cup.Http.Message.Parse.{parsed, parse_loop}
use highload_cup.Http.Message.Parse.Lines.{IsValueByte, line_read}
use highload_cup.Http.Message.Parse.Table.{IsHeader, at_line, lines_read}
use highload_cup.Http.Message.Parse.FirstLine.{first_read, behind_first}
use highload_cup.Http.Message.Parse.Reply.{end_read, behind_header}
use highload_cup.Http.Message.Raw.Headers.{
  avoids-IsValueByte, name_plain, lines_of-IsHeader, IsOther, read_table, read_table-length,
}

-- A fresh object that is to read a reply.
abbrev pub reader : Method → ℕ → Bytes → Message
reader method content_length raw = record (set_raw (construct method content_length) raw) {
  stage = in_version;
}

-- A text up to the end of a line, and what follows.
glue :
    (front s rest : Bytes) → front ++ (s ++ (line_end ++ rest)) ≡ (front ++ (s ++ line_end)) ++ rest
glue front s rest =
    ap (λ t. front ++ t) (sym (append_assoc s line_end rest))
    ∙ sym (append_assoc front (s ++ line_end) rest)

length-glue : (front s : Bytes) → length (front ++ (s ++ line_end)) ≡ length front + length s + 2
length-glue front s = omega (arith, length-append front (s ++ line_end), length-append s line_end)

drop-at : (front back : Bytes) (n : ℕ) → n ≡ length front → drop n (front ++ back) ≡ back
drop-at front back n e = rw e (drop-length-append front back)

known_status : (status : Status) → status ≢ unknown → is_unknown status ≡ false
known_status unknown h = absurd (h refl)
known_status _ h = refl

module _ (split : Bytes → Bytes → List Bytes) (unset : Version) (method : Method) (fresh : ℕ)
    (ver : Bytes) (v : Version) (status : Status) (hs : Table Bytes) (b : ℕ) (rest : Bytes) where
  -- The three parts of the text, and the object behind each.
  abbrev lines : Table Bytes
  lines = lines_of hs (b ∷ rest)

  abbrev back : Bytes
  back = header_loop lines ++ (line_end ++ (b ∷ rest))

  abbrev text : Bytes
  text = reply_text ver status hs (b ∷ rest)

  abbrev front1 : Bytes
  front1 = (ver ++ codes " ") ++ (status_to_str status ++ line_end)

  abbrev front2 : Bytes
  front2 = (front1 ++ codes "Status: ") ++ (status_to_str status ++ line_end)

  abbrev n1 : ℕ
  n1 = length ver + length (status_to_str status) + 3

  text_front1 :
      text
      ≡ front1 ++ (codes "Status" ++ (codes ": " ++ (status_to_str status ++ (line_end ++ back))))
  text_front1 =
      sym (append_assoc ver (codes " ") _) ∙ glue (ver ++ codes " ") (status_to_str status) _

  text_front2 : text ≡ front2 ++ back
  text_front2 =
      text_front1
      ∙ sym (append_assoc front1 (codes "Status: ") _)
      ∙ glue (front1 ++ codes "Status: ") (status_to_str status) back

  front1_size : length front1 ≡ n1
  front1_size =
      omega (
        arith,
        length-glue (ver ++ codes " ") (status_to_str status),
        length-append ver (codes " "),
      )

  front2_size : length front2 ≡ n1 + 8 + length (status_to_str status) + 2
  front2_size = omega (
    arith,
    length-glue (front1 ++ codes "Status: ") (status_to_str status),
    length-append front1 (codes "Status: "),
    front1_size,
  )

  text_body : text ≡ (front2 ++ (header_loop lines ++ line_end)) ++ (b ∷ rest)
  text_body = text_front2 ∙ glue front2 (header_loop lines) (b ∷ rest)

  abbrev line : Bytes
  line = codes "Status" ++ (codes ": " ++ (status_to_str status ++ (line_end ++ back)))

  abbrev m1 : Message
  m1 = behind_first split unset (reader method fresh text) v status (length front1)

  abbrev status_table : Table Bytes
  status_table = insert_key (codes "status") (status_to_str status) []

  -- The first line and that of the status.
  status_lines_read :
      0 < length ver
      → avoids b' ' b'\n' ver ≡ true
      → version_of split unset ver ≡ ok v
      → status ≢ unknown
      → parse_loop split unset false text 0 (reader method fresh text)
        ≡ parse_loop split unset false back
            (length front2)
            (at_line m1 status_table (length front1 + 6 + 2) (length front2))
  status_lines_read full plain reads known =
      let words = status_words status known in
      first_read split unset ver line v status (reader method fresh text) words
        (ap (λ s. ver ++ (codes " " ++ (s ++ (line_end ++ line)))) words.text
          ∙ ap (λ t. ver ++ (codes " " ++ t))
              (append_assoc words.word (codes " " ++ words.reason) _))
        refl refl refl full plain reads (known_status status known)
      ∙ ap
          (λ i.
            parse_loop split unset false line i
              (behind_first split unset (reader method fresh text) v status i))
          (sym front1_size)
      ∙ line_read split unset false front1 (codes "tatus") (status_to_str status) back b'S' m1 false
          text_front1 refl (omega (arith, front1_size)) (name_plain (codes "Status") refl)
          (avoids-IsValueByte (status_to_str status) (status_plain status)) refl
      ∙ ap
          (λ i.
            parse_loop split unset false back i (at_line m1 status_table (length front1 + 6 + 2) i))
          (omega (arith, front1_size, front2_size))

  drop_text : drop (length front2 + length (header_loop lines) + 2) text ≡ b ∷ rest
  drop_text = rw text_body (drop-at _ (b ∷ rest) _ (sym (length-glue front2 (header_loop lines))))

  text_size : length text ≡ length front2 + length (header_loop lines) + 2 + length (b ∷ rest)
  text_size =
      ap (λ s. length s) text_body
      ∙ omega (
        arith,
        length-append (front2 ++ (header_loop lines ++ line_end)) (b ∷ rest),
        length-glue front2 (header_loop lines),
      )

  pub reply_read :
      0 < length ver
      → avoids b' ' b'\n' ver ≡ true
      → version_of split unset ver ≡ ok v
      → status ≢ unknown
      → IsValueByte b
      → length (b ∷ rest) < 2 ^ 31
      → All IsHeader hs
      → All IsOther hs
      → (m' : Message) × (parse_loop split unset false text 0 (reader method fresh text)
          ≡ parsed true m')
        × (m'.status ≡ status)
        × (m'.ver ≡ v)
        × (m'.headers ≡ read_table status hs (b ∷ rest))
        × (m'.content_length ≡ length (b ∷ rest))
        × (drop m'.current m'.raw ≡ b ∷ rest)
  reply_read full plain reads known value_b small headers others =
      let (c, below, lines_end) =
        lines_read split unset false lines front2 (line_end ++ (b ∷ rest)) (length front1 + 6 + 2)
          status_table m1 text_front2 (omega (arith, front1_size, front2_size))
          (lines_of-IsHeader hs (b ∷ rest) small headers) in
      let n = length front2 + length (header_loop lines) in
      let t = read_table status hs (b ∷ rest) in
      (
        record (behind_header m1 t c n) { content_length = length (b ∷ rest) },
        status_lines_read full plain reads known
            ∙ lines_end
            ∙ end_read split unset m1 t c n b rest (to_string (length (b ∷ rest))) below value_b
                (read_table-length status hs (b ∷ rest) others)
                (format_int-to_string (length (b ∷ rest)) small) text_size,
        refl,
        refl,
        refl,
        refl,
        drop_text,
      )
