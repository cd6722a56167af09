-- ===== src/Examples/Messages.antt =====
-- Replies, multipart bodies, versions and statuses.
use highload_cup.Common.{
  arith, ◌≡◌, ◌≢◌, ◌≤◌, ◌∙◌, ◌<◌, ◌^◌, inl, refl, sym, ap, ==_false, true, false, List, [], ◌∷◌,
  ◌++◌, if◌then◌else◌, Bytes, codes, length, take, drop, All, append_assoc, append-nil, ok, ◌>>=◌,
}
use highload_cup.Util.Numbers.{format_size}
use highload_cup.Util.Numbers.Decimal.{IsDigit}
use highload_cup.Util.Text.{is_in}
use highload_cup.Http.Method.{get, post}
use highload_cup.Http.Quote.{quote}
use highload_cup.Http.Params.{query_string}
use highload_cup.Http.Params.Written.{IsWritable}
use highload_cup.Http.Status.{
  unknown, s404, status_to_str, status_from_int, status_from_int-status_to_str,
}
use highload_cup.Http.Version.{Version, zero_version, to_str, version_of}
use highload_cup.Http.Version.RoundTrip.{SplitsTwo, version_of-to_str}
use highload_cup.Http.Message.{
  add_post, val, Message, Table, construct, set_raw, set_status, set_ver, set_data, add_header,
  add_get, set_path, set_method,
}
use highload_cup.Http.Message.Gets.{entries, as_field}
use highload_cup.Http.Message.Raw.{to_raw}
use highload_cup.Http.Message.Raw.Forms.{HasValues}
use highload_cup.Http.Message.Forms.{form_table, IsFormType, parse-to_raw_form}
use highload_cup.Http.Message.Multipart.{parse_multipart}
use highload_cup.Http.Message.Multipart.Ends.{parse_multipart_ends}
use highload_cup.Http.Message.Parse.{parse, parsed}
use highload_cup.Http.Message.Parse.Lines.{IsNameByte}
use highload_cup.Http.Message.Parse.RequestParts.{IsPathByte}
use highload_cup.Http.Message.Parse.Table.{add_all}
use highload_cup.Http.Message.Requests.{parse-to_raw_get}
use highload_cup.Http.Message.Raw.Headers.{name_plain, read_table}
use highload_cup.Http.Message.RoundTrip.{parse-to_raw}

-- A split at every byte of a set.
abbrev cut : Bytes → Bytes → Bytes → List Bytes
cut [] del part = part ∷ []
cut (b ∷ text) del part =
    if is_in del b then part ∷ cut text del [] else cut text del (part ++ b ∷ [])

abbrev split : Bytes → Bytes → List Bytes
split text del = cut text del []

cut_digits :
    (s rest part : Bytes)
    → All IsDigit s
    → cut (s ++ rest) (codes ".") part ≡ cut rest (codes ".") (part ++ s)
cut_digits [] rest part h = ap (λ t. cut rest (codes ".") t) (sym (append-nil part))
cut_digits (b ∷ s) rest part (hb, h) = rw (==_false b'.' b (omega arith)) (
    cut_digits s rest (part ++ b ∷ []) h
    ∙ ap (λ t. cut rest (codes ".") t) (append_assoc part (b ∷ []) s))

split-SplitsTwo : SplitsTwo split
split-SplitsTwo s t hs ht =
    cut_digits s (codes "." ++ t) [] hs
    ∙ ap (λ r. s ∷ r) (ap (λ x. cut x (codes ".") []) (sym (append-nil t)) ∙ cut_digits t [] [] ht)

abbrev http_1_1 : Version
http_1_1 = record { byte1 = 1; byte2 = 1 }

abbrev in_order : (V : Type 0) → Table V → Table V
in_order V t = t

abbrev reply : Message
reply =
    add_header (set_data (set_ver (set_status (construct post 0) s404) http_1_1) (codes "{}"))
      (codes "X-Id") (codes "7")

status_from_int-status_to_str_example :
    (format_size (take 3 (status_to_str s404)) >>= λ n. ok (status_from_int n)) ≡ ok s404
status_from_int-status_to_str_example = status_from_int-status_to_str s404 cc

version_of-to_str_example : (to_str http_1_1 >>= version_of split zero_version) ≡ ok http_1_1
version_of-to_str_example =
    version_of-to_str split split-SplitsTwo zero_version http_1_1 (omega arith) (omega arith)

not_unknown : s404 ≢ unknown
not_unknown = cc

x_id_plain : All IsNameByte (codes "X-Id")
x_id_plain = name_plain (codes "X-Id") refl

parse-to_raw_example :
    (text : Bytes) × (m' : Message) × (to_raw in_order [] false true reply ≡ ok text)
    × (parse split zero_version false (set_raw (construct post 0) text) ≡ parsed true m')
    × (m'.status ≡ s404)
    × (m'.ver ≡ http_1_1)
    × (m'.headers ≡ read_table s404 ((codes "X-Id", codes "7") ∷ []) (codes "{}"))
    × (m'.content_length ≡ 2)
    × (drop m'.current m'.raw ≡ codes "{}")
parse-to_raw_example =
    parse-to_raw in_order [] split zero_version reply post 0 b'{' (codes "}") split-SplitsTwo refl
      not_unknown refl (omega arith) (omega arith) refl (omega arith, omega arith) (omega arith)
      (((cc), x_id_plain, ((omega arith, omega arith), tt), refl), tt) (refl, tt)

-- A request with a query.
abbrev visits_request : Message
visits_request =
    add_header
      (add_get
        (set_path (set_ver (set_method (construct post 0) get) http_1_1) (codes "/users/7/visits"))
        (codes "country") (codes "A b"))
      (codes "X-Id") (codes "7")

slash_path : All IsPathByte (codes "/users/7/visits")
slash_path = omega arith

country-IsWritable : IsWritable ((codes "country", codes "A b") ∷ [])
country-IsWritable = (omega arith, omega arith, (λ e. cc), (λ e. cc))

parse-to_raw_get_example :
    (text : Bytes) × (m' : Message) × (to_raw in_order [] true false visits_request ≡ ok text)
    × (parse split zero_version true (set_raw (construct post 5) text) ≡ parsed true m')
    × (m'.method ≡ get)
    × (m'.path ≡ codes "/users/7/visits")
    × (m'.gets ≡ (codes "country", codes "A b") ∷ [])
    × (m'.ver ≡ http_1_1)
    × (m'.headers ≡ add_all ((codes "X-Id", codes "7") ∷ []) [])
parse-to_raw_get_example =
    parse-to_raw_get in_order [] split zero_version visits_request false post 5 split-SplitsTwo
      (λ V t. refl) refl (omega arith) slash_path country-IsWritable (refl, tt) (omega arith)
      (omega arith) refl refl (((cc), x_id_plain, ((omega arith, omega arith), tt), refl), tt)

-- A form of two fields.
abbrev form_request : Message
form_request =
    add_post
      (add_post
        (set_path (set_ver (set_method (construct get 0) post) http_1_1) (codes "/users/new"))
        (codes "name") (codes "A & b"))
      (codes "id") (codes "7")

abbrev two_fields : List (Bytes × Bytes)
two_fields = (codes "name", codes "A & b") ∷ (codes "id", codes "7") ∷ []

users_path_plain : All IsPathByte (codes "/users/new")
users_path_plain = omega arith

two_fields-IsWritable : IsWritable two_fields
two_fields-IsWritable =
    (omega arith, omega arith, (λ e. cc), (omega arith, omega arith, (λ e. cc), (λ e. cc)))

two_fields_written : HasValues form_request.posts two_fields
unfolding val
two_fields_written = (refl, refl, (refl, refl, tt))

two_fields_short : length (query_string two_fields) < 2 ^ 31
unfolding query_string quote
two_fields_short = omega arith

abbrev posted_table : Table Bytes
posted_table = form_table [] (query_string two_fields)

form_type : IsFormType posted_table
form_type = inl refl

parse-to_raw_form_example :
    (text : Bytes) × (m' : Message) × (to_raw in_order [] true true form_request ≡ ok text)
    × (parse split zero_version true (set_raw (construct get 5) text) ≡ parsed true m')
    × (m'.method ≡ post)
    × (m'.path ≡ codes "/users/new")
    × (m'.gets ≡ [])
    × (m'.posts ≡ entries as_field two_fields)
    × (m'.ver ≡ http_1_1)
    × (m'.headers ≡ posted_table)
    × (m'.content_length ≡ length (query_string two_fields))
parse-to_raw_form_example =
    parse-to_raw_form in_order [] split zero_version form_request true get 5
      (codes "name", codes "A & b") ((codes "id", codes "7") ∷ []) split-SplitsTwo (λ V t. refl)
      refl (omega arith) users_path_plain tt tt (omega arith) (omega arith) refl two_fields_written
      two_fields-IsWritable (refl, (refl, tt)) two_fields_short tt tt form_type

-- A multipart body of one field, and one whose boundary is missing.
abbrev upload : Message
upload =
    set_raw (construct post 0)
      (codes "--B\r\nContent-Disposition: form-data; name=\"a\"\r\n\r\n12\r\n--B--")

parse_multipart_ends_example : length upload.raw ≤ (parse_multipart (codes "B") upload).current
parse_multipart_ends_example = parse_multipart_ends (codes "B") upload
