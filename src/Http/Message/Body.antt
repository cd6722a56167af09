-- ===== src/Http/Message/Body.antt =====
-- `http_proto::parse_body` (include/http_proto.cpp). The line that it writes to the log for a
-- content type it does not know is left out.
use highload_cup.Common.{
  ℕ, ◌+◌, ◌-◌, Bool, true, false, ◌&&◌, none, some, ◌==◌, if◌then◌else◌, Bytes, codes, length,
  get_elem?, slice, drop, [], ◌∷◌, Result, ok,
}
use highload_cup.Util.Text.{find_text}
use highload_cup.Http.Message.{Message, header, urlencoded, add_post}
use highload_cup.Http.Message.Multipart.{parse_multipart}

abbrev pub ct_json : Bytes
ct_json = codes "application/json"

abbrev pub ct_multipart : Bytes
ct_multipart = codes "multipart/form-data"

abbrev pub ct_urlencoded : Bytes
ct_urlencoded = codes "application/x-www-form-urlencoded"

abbrev pub ct_boundary : Bytes
ct_boundary = codes "boundary="

-- A flag stays set as long as the texts agree.
abbrev pub agrees : Bool → Bytes → ℕ → ℕ → Bool
agrees flag text count c = flag && elim (get_elem? text count) [ none ↦ false | some b ↦ c == b ]

abbrev pub is_last : Bool → Bytes → ℕ → Bool
is_last flag text count = flag && (count + 1 == length text)

-- The rest of the buffer as JSON text, or as parameters.
abbrev pub json_body : Message → Message
json_body m = record m { body = slice m.raw m.current (length m.raw - m.current) }

abbrev pub form_body : Message → Result Message
form_body m = urlencoded m m.current (length m.raw) add_post b'&' true

-- The end of the loop's body: the last of the three texts.
abbrev pub url_case : Bool → Message → Result Message → Result Message
url_case found m rest = if found then form_body m else rest

pub type_loop : Bytes → Bytes → ℕ → Bool → Bool → Bool → Message → Result Message
unfolding find_text
type_loop content_type [] count json_flag mult_flag urle_flag m = ok m
type_loop content_type (c ∷ todo) count json_flag mult_flag urle_flag m =
    let json = agrees json_flag ct_json count c in
    let mult = agrees mult_flag ct_multipart count c in
    let urle = agrees urle_flag ct_urlencoded count c in
    let rest = type_loop content_type todo (count + 1) json mult urle m in
    let url = url_case (is_last urle ct_urlencoded count) m rest in
    if is_last json ct_json count
    then ok (json_body m)
    else if is_last mult ct_multipart count
    then elim (find_text ct_boundary content_type 0) [
      | none ↦ url
      | some pos ↦ ok (parse_multipart (drop (pos + length ct_boundary) content_type) m)
    ]
    else url

unfoldable pub parse_body : Message → Result Message
unfolding type_loop
parse_body m = elim (header m (codes "content-type") []) [
  | [] ↦ form_body m
  | c ∷ content_type ↦ type_loop (c ∷ content_type) (c ∷ content_type) 0 true true true m
]
