-- ===== src/Http/Message/Multipart.antt =====
-- `http_proto::parse_multipart` (include/http_proto.cpp).
pub mod Ends
use highload_cup.Common.{
  ℕ, zero, suc, ◌+◌, ◌-◌, Bool, true, false, not, ◌&&◌, ◌||◌, Option, none, some, ltb, leb, ◌==◌,
  if◌then◌else◌, Bytes, codes, bytes_eq, length, get_elem?, slice, take, List, [], ◌∷◌,
}
use highload_cup.Http.Message.{Message, Field, Table, field_of_range, insert_key}

-- `enum parse_state`.
pub data Place : Type 0 where
  header name filename content_type part_body : Place

-- The local variables of the loop, `m_current` and `m_post`. No other call changes them meanwhile.
pub record Scan : Type 0 where
  pub state : Place
  pub current : ℕ
  pub content_type_start : ℕ
  pub content_type_size : ℕ
  pub name_start : ℕ
  pub name_size : ℕ
  pub filename_start : ℕ
  pub filename_size : ℕ
  pub body_start : ℕ
  pub body_size : ℕ
  pub posts : Table Field

-- `minBSize`: what is left of the buffer bounds a comparison.
abbrev pub min_b_size : Bytes → ℕ → ℕ → ℕ
min_b_size raw current size = if ltb (length raw - current) size then length raw - current else size

-- `!memcmp(&m_raw->at(m_current), text, minBSize(text.size()))`.
abbrev pub at_text : Bytes → ℕ → Bytes → Bool
at_text raw current text =
    let size = min_b_size raw current (length text) in
    bytes_eq (slice raw current size) (take size text)

-- `m_raw->at(i) == c`.
abbrev pub has_byte : Bytes → ℕ → ℕ → Bool
has_byte raw i c = elim (get_elem? raw i) [ none ↦ false | some b ↦ b == c ]

abbrev pub name_label : Bytes
name_label = codes "name=\""

abbrev pub file_name_label : Bytes
file_name_label = codes "filename=\""

abbrev pub content_type_upper : Bytes
content_type_upper = codes "Content-Type: "

abbrev pub content_type_lower : Bytes
content_type_lower = codes "content-type: "

abbrev pub body_start_label1 : Bytes
body_start_label1 = codes "\r\n\r\n"

abbrev pub body_start_label2 : Bytes
body_start_label2 = codes "\n\n"

-- Where `m_current` stands behind a label; the round of the loop then adds one.
abbrev pub behind : Bytes → ℕ → Bytes → ℕ
behind raw current label = current + min_b_size raw current (length label)

-- One round, with the `++m_current` at its end.
pub step_header : Bytes → Scan → Scan
step_header raw v =
    if v.name_size == 0 && at_text raw v.current name_label
    then record v {
      current = behind raw v.current name_label + 1;
      name_start = behind raw v.current name_label;
      state = name;
    }
    else if v.filename_size == 0 && at_text raw v.current file_name_label
    then record v {
      current = behind raw v.current file_name_label + 1;
      filename_start = behind raw v.current file_name_label;
      state = filename;
    }
    else if v.content_type_size == 0
        && (at_text raw v.current content_type_upper || at_text raw v.current content_type_lower)
    then record v {
      current = behind raw v.current content_type_upper + 1;
      content_type_start = behind raw v.current content_type_upper;
      state = content_type;
    }
    else if v.body_size == 0 && at_text raw v.current body_start_label1
    then record v {
      current = behind raw v.current body_start_label1 + 1;
      body_start = behind raw v.current body_start_label1;
      state = part_body;
    }
    else if v.body_size == 0 && at_text raw v.current body_start_label2
    then record v {
      current = behind raw v.current body_start_label2 + 1;
      body_start = behind raw v.current body_start_label2;
      state = part_body;
    }
    else record v { current = v.current + 1 }

pub step_name : Bytes → Scan → Scan
step_name raw v =
    if has_byte raw v.current b'"'
    then record v { name_size = v.current - v.name_start; state = header; current = v.current + 1 }
    else record v { current = v.current + 1 }

pub step_filename : Bytes → Scan → Scan
step_filename raw v =
    if has_byte raw v.current b'"'
    then record v {
      filename_size = v.current - v.filename_start;
      state = header;
      current = v.current + 1;
    }
    else record v { current = v.current + 1 }

-- `--m_current` takes back the `++m_current` of the loop.
pub step_content_type : Bytes → Scan → Scan
step_content_type raw v =
    if has_byte raw v.current b'\r' || has_byte raw v.current b'\n'
    then record v { content_type_size = v.current - v.content_type_start; state = header }
    else record v { current = v.current + 1 }

-- `body_size`, a `long`: 0 where it would be negative, and without a line end behind the body.
abbrev pub size_of_body : Bytes → ℕ → ℕ → ℕ
size_of_body raw body_start current =
    let size = current - body_start - 2 in
    if leb 2 size
      && has_byte raw (body_start + size - 1) b'\n'
      && has_byte raw (body_start + size - 2) b'\r'
    then size - 2
    else size

-- `m_post.insert`, for a part that has a name.
abbrev pub add_part : Bytes → Scan → Table Field
add_part raw v =
    let field_name = slice raw v.name_start v.name_size in
    if not (v.name_size == 0)
    then insert_key field_name
        (field_of_range field_name (slice raw v.content_type_start v.content_type_size)
          (slice raw v.filename_start v.filename_size)
          (slice raw v.body_start (size_of_body raw v.body_start v.current)))
        v.posts
    else v.posts

pub start : ℕ → Table Field → Scan
start current posts = record {
  state = header;
  current = current;
  content_type_start = 0;
  content_type_size = 0;
  name_start = 0;
  name_size = 0;
  filename_start = 0;
  filename_size = 0;
  body_start = 0;
  body_size = 0;
  posts = posts;
}

pub step_body : Bytes → Bytes → Scan → Scan
unfolding start
step_body boundary raw v =
    if at_text raw v.current boundary
    then start (behind raw v.current boundary + 1) (add_part raw v)
    else record v { current = v.current + 1 }

abbrev pub step_in : Place → Bytes → Bytes → Scan → Scan
step_in header boundary raw v = step_header raw v
step_in name boundary raw v = step_name raw v
step_in filename boundary raw v = step_filename raw v
step_in content_type boundary raw v = step_content_type raw v
step_in part_body boundary raw v = step_body boundary raw v

pub scan : ℕ → Bytes → Bytes → Scan → Scan
unfolding step_header step_name step_filename step_content_type step_body
scan zero boundary raw v = v
scan (suc fuel) boundary raw v =
    let rest = scan fuel boundary raw (step_in v.state boundary raw v) in
    if ltb v.current (length raw) then rest else v

-- The content type of a part takes one round that does not move on, and every other round moves on.
abbrev pub scan_fuel : Bytes → ℕ
scan_fuel raw = length raw + length raw + 1

unfoldable pub parse_multipart : Bytes → Message → Message
unfolding scan
parse_multipart boundary m =
    let v =
      scan (scan_fuel m.raw) boundary m.raw (start (m.current + (length boundary + 2)) m.posts) in
    record m { current = v.current; posts = v.posts }
