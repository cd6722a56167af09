-- ===== src/Http/Message/Forms.antt =====
-- A POST request with the fields of a form that `http_proto::to_raw` writes, read by
-- `http_proto::parse`.
use highload_cup.Common.{
  arith, ℕ, ◌+◌, ◌^◌, ◌<◌, ◌≡◌, ◌⊎◌, inl, inr, ◌∙◌, ap, refl, sym, Bool, true, List, [], ◌∷◌, ◌++◌,
  none, some, Bytes, codes, length, length-append, append_assoc, append-nil, All, All-append, ok,
  ◌>>=◌,
}
use highload_cup.Common.Text.{to_string}
use highload_cup.Util.Numbers.{format_int}
use highload_cup.Util.Numbers.Printed.{format_int-to_string}
use highload_cup.Http.Method.{Method, post, method_to_str, full_method_from_str}
use highload_cup.Http.Version.{Version, version_of}
use highload_cup.Http.Version.RoundTrip.{SplitsTwo, version_of-to_str, to_str-IsQueryByte}
use highload_cup.Http.Params.{parse_urlencoded, query_string}
use highload_cup.Http.Params.Written.{
  Param, IsWritable, IsQueryByte, query_string-IsQueryByte, length-query_string_pos,
}
use highload_cup.Http.Params.RoundTrip.{parse_urlencoded-query_string}
use highload_cup.Http.Message.{
  Message, Table, Field, construct, set_raw, add_post, header, find_key,
}
use highload_cup.Http.Message.Body.{ct_urlencoded, form_body, parse_body}
use highload_cup.Http.Message.Gets.{IsMap, IsForm, entries, as_field, fold-posts}
use highload_cup.Http.Message.Keys.{find_key-add_all}
use highload_cup.Http.Message.Raw.{line_end, header_loop, to_raw}
use highload_cup.Http.Message.Raw.Lines.{length_line}
use highload_cup.Http.Message.Raw.Headers.{IsOther, length_line-IsHeader}
use highload_cup.Http.Message.Raw.Requests.{KeepsLength}
use highload_cup.Http.Message.Raw.Forms.{HasValues, form_text, to_raw-form}
use highload_cup.Http.Message.RequestHead.{asked, front, head_read}
use highload_cup.Http.Message.Parse.{parsed, parse_loop, parse}
use highload_cup.Http.Message.Parse.Reply.{behind_header}
use highload_cup.Http.Message.Parse.RequestEnd.{post_end_read}
use highload_cup.Http.Message.Parse.RequestParts.{IsPathByte, path_plain}
use highload_cup.Http.Message.Parse.Table.{IsHeader, add_all, at_line}

-- The table of headers without a content type, or with that of a form.
abbrev pub IsFormType : Table Bytes → Type 0
IsFormType t =
    (find_key (codes "content-type") t ≡ none)
    ⊎ (find_key (codes "content-type") t ≡ some ct_urlencoded)

parse_body-form : (m : Message) → IsFormType m.headers → parse_body m ≡ form_body m
unfolding parse_body header
parse_body-form m (inl e) = rw (parse_body, header, e) refl
parse_body-form m (inr e) = rw (parse_body, header, e) refl

-- The fields of a form behind everything else in the buffer.
form_body-query_string :
    (qs : List Param) (before : Bytes) (m : Message)
    → m.raw ≡ before ++ query_string qs
    → m.current ≡ length before
    → m.posts ≡ []
    → IsWritable qs
    → IsForm qs
    → form_body m ≡ ok (record m { posts = entries as_field qs })
form_body-query_string qs before m raw at none_yet writable form =
    let size : length m.raw ≡ length before + length (query_string qs) =
      ap length raw ∙ length-append before (query_string qs) in
    let raw' : m.raw ≡ before ++ (query_string qs ++ []) =
      raw ∙ ap (λ t. before ++ t) (sym (append-nil (query_string qs))) in
    ap (λ i. parse_urlencoded m.raw i (length m.raw) add_post b'&' true m) at
    ∙ ap (λ i. parse_urlencoded m.raw (length before) i add_post b'&' true m) size
    ∙ ap
        (λ s.
          parse_urlencoded s (length before) (length before + length (query_string qs)) add_post
            b'&' true m)
        raw'
    ∙ parse_urlencoded-query_string add_post qs before [] m writable
    ∙ ap (λ w. ok w) (fold-posts qs m none_yet form)

length-head :
    (first lines : Bytes) → length (first ++ (lines ++ line_end)) ≡ length first + length lines + 2
length-head first lines =
    omega (arith, length-append first (lines ++ line_end), length-append lines line_end)

length-request :
    (first lines body : Bytes)
    → length (first ++ (lines ++ (line_end ++ body)))
      ≡ length first + length lines + 2 + length body
length-request first lines body = omega (
  arith,
  length-append first (lines ++ (line_end ++ body)),
  length-append lines (line_end ++ body),
)

-- The empty line and the form.
form_end_read :
    (split : Bytes → Bytes → List Bytes) (unset : Version) (n c : ℕ) (body text : Bytes)
    (t : Table Bytes) (m m' : Message)
    → c < n
    → 0 < length body
    → All IsQueryByte body
    → m.method ≡ post
    → find_key (codes "content-length") t ≡ some text
    → format_int text ≡ ok (length body)
    → length m.raw ≡ n + 2 + length body
    → parse_body (record (behind_header m t c n) { content_length = length body }) ≡ ok m'
    → parse_loop split unset true (line_end ++ body) n (at_line m t c n) ≡ parsed true m'
form_end_read split unset n c [] text t m m' below full plain = absurd (omega arith)
form_end_read split unset n c (b ∷ rest) text t m m' below full (hb, plain) =
    post_end_read split unset n c b t m m' rest text below (hb.1, hb.2)

-- What the reader has of the lines of a form.
abbrev pub form_table : Table Bytes → Bytes → Table Bytes
form_table hs body = add_all (hs ++ length_line body) []

-- A POST request with the fields of a form that `to_raw` writes is read back: `parse` accepts it
-- as complete, with its method, its path, its parameters and its fields in the order in which they
-- were written, its version, its headers with the length of the body behind them, and that length. The conditions on the path, the
-- parameters, the version and the headers are those of a GET request; there is a field, the fields
-- have values, which are of bytes, no name stands twice or is empty, the last value is not empty, the written form is below
-- 2^31 bytes, and the headers have no length, and no content type or that of a form.
pub parse-to_raw_form :
    (order : (V : Type 0) → Table V → Table V) (expires : Bytes)
    (split : Bytes → Bytes → List Bytes) (unset : Version) (m : Message) (include_data : Bool)
    (method : Method) (fresh : ℕ) (q : Param) (qs : List Param)
    → SplitsTwo split
    → KeepsLength order
    → m.method ≡ post
    → 0 < length m.path
    → All IsPathByte m.path
    → IsWritable (order Bytes m.gets)
    → IsMap (order Bytes m.gets)
    → m.ver.byte1 < 256
    → m.ver.byte2 < 256
    → m.cookies ≡ []
    → HasValues (order Field m.posts) (q ∷ qs)
    → IsWritable (q ∷ qs)
    → IsForm (q ∷ qs)
    → length (query_string (q ∷ qs)) < 2 ^ 31
    → All IsHeader (order Bytes m.headers)
    → All IsOther (order Bytes m.headers)
    → IsFormType (form_table (order Bytes m.headers) (query_string (q ∷ qs)))
    → (text : Bytes) × (m' : Message) × (to_raw order expires true include_data m ≡ ok text)
      × (parse split unset true (set_raw (construct method fresh) text) ≡ parsed true m')
      × (m'.method ≡ post)
      × (m'.path ≡ m.path)
      × (m'.gets ≡ order Bytes m.gets)
      × (m'.posts ≡ entries as_field (q ∷ qs))
      × (m'.ver ≡ m.ver)
      × (m'.headers ≡ form_table (order Bytes m.headers) (query_string (q ∷ qs)))
      × (m'.content_length ≡ length (query_string (q ∷ qs)))
unfolding parse method_to_str full_method_from_str
parse-to_raw_form order expires split unset m include_data method fresh q qs splits keeps is_post
      full plain writable map h k bare values writable' form small headers others type =
    let (ver, prints, full', plain') = to_str-IsQueryByte m.ver h k in
    let ps = order Bytes m.gets in
    let hs = order Bytes m.headers in
    let body = query_string (q ∷ qs) in
    let lines = hs ++ length_line body in
    let back = header_loop lines ++ (line_end ++ body) in
    let first = front split unset method fresh (codes "POST") m.path ver back m.ver ps in
    let reads : version_of split unset ver ≡ ok m.ver =
      sym (ap (λ r. r >>= version_of split unset) prints)
      ∙ version_of-to_str split splits unset m.ver h k in
    let back = header_loop lines ++ (line_end ++ body) in
    let first = front split unset method fresh (codes "POST") m.path ver back m.ver ps in
    let (c, below, head) =
      head_read split unset method fresh (codes "POST") m.path ver (line_end ++ body) m.ver ps lines
        (omega arith) (omega arith) full plain writable map full' plain' reads
        (All-append IsHeader hs (length_line body) headers (length_line-IsHeader body small)) in
    let n = length first + length (header_loop lines) in
    let start =
      asked (set_raw (construct method fresh) (first ++ back)) (codes "POST") m.path ps m.ver
        (length first) in
    let t = form_table hs body in
    let text : form_text m ver ps hs body ≡ first ++ back = rw is_post (simp append_assoc) in
    let size = length-request first (header_loop lines) body in
    let known : find_key (codes "content-length") t ≡ some (to_string (length body)) =
      find_key-add_all (codes "content-length") (codes "Content-Length") (to_string (length body))
        hs [] refl refl others in
    let last : Message = record (behind_header start t c n) { content_length = length body } in
    let parses : parse_body last ≡ ok (record last { posts = entries as_field (q ∷ qs) }) =
      parse_body-form last type
      ∙ form_body-query_string (q ∷ qs) (first ++ (header_loop lines ++ line_end)) last
          (simp append_assoc) (sym (length-head first (header_loop lines))) refl writable' form in
    (
      first ++ back,
      record last { posts = entries as_field (q ∷ qs) },
      to_raw-form order expires m ver ps q qs include_data bare values keeps refl
            (path_plain m.path plain) prints
          ∙ ap (λ s. ok s) text,
      head
          ∙ form_end_read split unset n c body (to_string (length body)) t start _ below
              (length-query_string_pos q qs) (query_string-IsQueryByte (q ∷ qs) writable') refl
              known (format_int-to_string (length body) small) size parses,
      refl,
      refl,
      refl,
      refl,
      refl,
      refl,
      refl,
    )
