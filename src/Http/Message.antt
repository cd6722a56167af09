-- ===== src/Http/Message.antt =====
-- `http_proto` and `post_field` (include/http_proto.h, include/http_proto.cpp): the object, and its
-- accessors. `parse`, `parse_body`, `parse_multipart` and `to_raw` are in the child modules.
pub mod Multipart
pub mod Body
pub mod Parse
pub mod Raw
pub mod Keys
pub mod Gets
mod Replies
pub mod RoundTrip
pub mod RequestHead
pub mod Requests
pub mod Forms
use highload_cup.Common.{
  ℕ, Bool, true, false, List, [], ◌∷◌, ◌++◌, Option, none, some, ltb, if◌then◌else◌, Bytes,
  bytes_eq, length, Result, ok, throw, Fail, null_pointer,
}
use highload_cup.Http.Method.{Method}
use highload_cup.Http.Status.{Status, unknown}
use highload_cup.Http.Version.{Version, zero_version}
use highload_cup.Http.Params.{parse_urlencoded}
use highload_cup.Util.Numbers.{format_int}

-- `post_field`. `value` is the bytes between the two iterators of `m_value`, and `hidden` what
-- `m_value_hidden` points to; `none` is a null pointer.
pub record Field : Type 0 where
  pub name : Bytes
  pub content_type : Bytes
  pub file_name : Bytes
  pub value : Bytes
  pub hidden : Option Bytes

-- The constructor from a shared vector, and the one from two iterators.
abbrev pub field_of_data : Bytes → Bytes → Bytes → Bytes → Field
field_of_data name content_type file_name value = record {
  name = name;
  content_type = content_type;
  file_name = file_name;
  value = value;
  hidden = some value;
}

abbrev pub field_of_range : Bytes → Bytes → Bytes → Bytes → Field
field_of_range name content_type file_name value = record {
  name = name;
  content_type = content_type;
  file_name = file_name;
  value = value;
  hidden = none;
}

-- `val<std::string>()`: `m_value_hidden->size()` reads through the pointer.
unfoldable pub val : Field → Result Bytes
val field = elim field.hidden [
  | none ↦ throw null_pointer
  | some hidden ↦ ok (if ltb 0 (length hidden) then hidden else field.value)
]

-- `state_parse_t`.
pub data Stage : Type 0 where
  in_method in_path in_options in_version in_status in_header in_body : Stage

-- A map from keys to values, in the order of the insertions.
abbrev pub Table : Type 0 → Type 0
Table V = List (Bytes × V)

pub record Message : Type 0 where
  pub method : Method
  pub path : Bytes
  pub ver : Version
  pub status : Status
  pub headers : Table Bytes
  pub gets : Table Bytes
  pub cookies : Table Bytes
  pub posts : Table Field
  pub content_length : ℕ
  pub raw : Bytes
  pub body : Bytes
  pub stage : Stage
  pub current : ℕ
  pub cvalue : ℕ
  pub flag_2n : Bool

-- `http_proto()`: `m_method` and `m_content_length` keep what was in the memory.
abbrev pub construct : Method → ℕ → Message
construct method content_length = record {
  method = method;
  path = [];
  ver = zero_version;
  status = unknown;
  headers = [];
  gets = [];
  cookies = [];
  posts = [];
  content_length = content_length;
  raw = [];
  body = [];
  stage = in_method;
  current = 0;
  cvalue = 0;
  flag_2n = false;
}

-- `find`, and `insert`, which keeps the value of a key that is there.
abbrev pub find_key : {V : Type 0} → Bytes → Table V → Option V
find_key key [] = none
find_key key ((k, v) ∷ m) = if bytes_eq k key then some v else find_key key m

abbrev pub insert_key : {V : Type 0} → Bytes → V → Table V → Table V
insert_key key v m = elim (find_key key m) [ none ↦ m ++ (key, v) ∷ [] | some w ↦ m ]

abbrev pub value_or : Option Bytes → Bytes → Bytes
value_or none default_value = default_value
value_or (some v) default_value = v

-- `header<std::string>`, `header<int>`, `get<std::string>` and `cookie<std::string>`.
unfoldable pub header : Message → Bytes → Bytes → Bytes
header m key default_value = value_or (find_key key m.headers) default_value

unfoldable pub header_int : Message → Bytes → ℕ → Result ℕ
unfolding format_int
header_int m key default_value = elim (find_key key m.headers) [
  | none ↦ ok default_value
  | some v ↦ format_int v
]

unfoldable pub get_value : Message → Bytes → Bytes → Bytes
get_value m key default_value = value_or (find_key key m.gets) default_value

unfoldable pub cookie : Message → Bytes → Bytes → Bytes
cookie m key default_value = value_or (find_key key m.cookies) default_value

unfoldable pub is_get : Message → Bytes → Bool
is_get m key = elim (find_key key m.gets) [ none ↦ false | some v ↦ true ]

-- `post(key)`; `none` is an empty pointer.
unfoldable pub post_value : Message → Bytes → Option Field
post_value m key = find_key key m.posts

-- The calls that fill an object.
abbrev pub set_data : Message → Bytes → Message
set_data m data_value = record m { body = data_value }

abbrev pub set_raw : Message → Bytes → Message
set_raw m raw = record m { raw = raw }

abbrev pub set_method : Message → Method → Message
set_method m method = record m { method = method }

abbrev pub set_path : Message → Bytes → Message
set_path m path = record m { path = path }

abbrev pub set_ver : Message → Version → Message
set_ver m ver = record m { ver = ver }

abbrev pub set_status : Message → Status → Message
set_status m status = record m { status = status }

abbrev pub add_header : Message → Bytes → Bytes → Message
add_header m key v = record m { headers = insert_key key v m.headers }

abbrev pub add_get : Message → Bytes → Bytes → Message
add_get m key v = record m { gets = insert_key key v m.gets }

abbrev pub add_cookie : Message → Bytes → Bytes → Message
add_cookie m key v = record m { cookies = insert_key key v m.cookies }

-- `add_post(name, ct, value)`, and `add_post(name, value)`, which has no content type.
abbrev pub add_post_typed : Message → Bytes → Bytes → Bytes → Message
add_post_typed m name content_type v = record m {
  posts = insert_key name (field_of_data name content_type [] v) m.posts;
}

abbrev pub add_post : Message → Bytes → Bytes → Message
add_post m name v = add_post_typed m name [] v

-- `http_proto::parse_urlencoded` is `sp_http_proto::parse_urlencoded` over `m_raw`: the two loops
-- are the same, word for word.
abbrev pub urlencoded :
    Message → ℕ → ℕ → (Message → Bytes → Bytes → Message) → ℕ → Bool → Result Message
urlencoded m off_begin off_end func separator unquote_flag =
    parse_urlencoded m.raw off_begin off_end func separator unquote_flag m
