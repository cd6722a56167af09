-- ===== src/Http/Request.antt =====
-- `sp_http_proto::parse` (include/sp_http_proto.cpp): the state machine that reads one request from
-- the buffer of a processor, and the accessors of `request` (include/request.cpp).
pub mod Loop
pub mod Steps
pub mod Line
pub mod Query
pub mod Header
pub mod Post
pub mod Written
pub mod Bounds
pub mod Isolated
mod Tests
use highload_cup.Common.{
  ℕ, ◌+◌, ◌-◌, Bool, true, false, not, ◌&&◌, ◌||◌, List, [], ◌∷◌, ◌++◌, Option, none, some, ltb,
  leb, ◌==◌, if◌then◌else◌, Bytes, bytes_eq, slice, take, drop, set, length, Result, ok, throw,
  Fail,
}
use highload_cup.Http.Method.{Method, get, post, unknown, method_from_str, is_get, is_post}
use highload_cup.Http.Params.{parse_urlencoded}

-- `state_parse_t`, without the states of a reply.
pub data State : Type 0 where
  in_method in_path in_options in_version in_header in_body : State

-- The object that is read into. A processor reads every request into one object: `method` keeps
-- its value where a text has none. `body_at` is where `m_data` points to in the buffer.
pub record Proto : Type 0 where
  pub params : List (Bytes × Bytes)
  pub method : Method
  pub path : Bytes
  pub body_at : ℕ

-- The local variables of `parse`, and the object.
pub record Parser : Type 0 where
  pub state : State
  pub current : ℕ
  pub cvalue : ℕ
  pub flag_2n : Bool
  pub proto : Proto

-- One round of the loop goes on, returns, or throws.
pub data Next : Type 0 where
  going : Parser → Next
  returned : Bool → Proto → Next
  thrown : Fail → Next

abbrev pub lookup : Bytes → List (Bytes × Bytes) → Option Bytes
lookup key [] = none
lookup key ((k, v) ∷ m) = if bytes_eq k key then some v else lookup key m

-- `m_get.insert`: a key that is there keeps its value.
abbrev pub add_get : List (Bytes × Bytes) → Bytes → Bytes → List (Bytes × Bytes)
add_get m key val = elim (lookup key m) [ none ↦ m ++ (key, val) ∷ [] | some v ↦ m ]

abbrev pub is_newline : ℕ → Bool
is_newline b = b == b'\n' || b == b'\r'

-- What is in the buffer from `current` up to `count`.
abbrev pub token : Bytes → Parser → ℕ → Bytes
token raw p count = slice raw p.current (count - p.current)

pub step_method : Bytes → Parser → ℕ → ℕ → Next
unfolding method_from_str
step_method raw p b count =
    if b == b' '
    then (if ltb 0 (count - p.current)
        then going (record p {
          proto = record p.proto { method = method_from_str (token raw p count) };
          state = in_path;
          current = count + 1;
        })
        else returned false p.proto)
    else going p

pub step_path : Bytes → Parser → ℕ → ℕ → Next
step_path raw p b count =
    if b == b' ' || b == b'?'
    then (if ltb 0 (count - p.current)
        then going (record p {
          proto = record p.proto { path = token raw p count };
          state = if b == b'?' then in_options else in_version;
          current = count + 1;
        })
        else returned false p.proto)
    else going p

pub step_version : Parser → ℕ → ℕ → Next
step_version p b count =
    if is_newline b
    then (if ltb 0 (count - p.current)
        then going (record p { state = in_header; current = count + 1 })
        else returned false p.proto)
    else going p

-- Behind `parse_urlencoded`: a GET request is complete; another one falls through to the case of
-- the version, where a space changes nothing.
abbrev pub with_params : Parser → ℕ → Result (List (Bytes × Bytes)) → Next
with_params p count (throw e) = thrown e
with_params p count (ok params) =
    let proto = record p.proto { params = params } in
    if is_get p.proto.method
    then returned true proto
    else going (record p { proto = proto; current = count + 1 })

pub step_options : Bytes → Parser → ℕ → ℕ → Next
unfolding step_version
step_options raw p b count =
    if b == b' '
    then (if ltb 0 (count - p.current)
        then with_params p count
            (parse_urlencoded raw p.current count add_get b'&' true p.proto.params)
        else going (record p { current = count + 1 }))
    else step_version p b count

pub step_header : Parser → ℕ → ℕ → Next
step_header p b count =
    if is_newline b
    then (if b == b'\n' && p.flag_2n
        then (if is_get p.proto.method
            then returned true p.proto
            else going (record p { state = in_body; current = count + 1 }))
        else going
            (record p { flag_2n = if b == b'\n' then true else p.flag_2n; current = count + 1 }))
    else if b == b':' && ltb p.cvalue p.current
    then going (record p { cvalue = count + 2 })
    else going (record p { flag_2n = false })

-- The object behind the write of `write_body`.
pub step_body : Parser → ℕ → ℕ → Next
step_body p b count =
    if is_newline b
    then going (record p { current = count + 1 })
    else returned true
        (if is_post p.proto.method then record p.proto { body_at = p.current } else p.proto)

abbrev pub is_body : State → Bool
is_body in_body = true
is_body _ = false

-- The switch.
abbrev pub step_in : State → Bytes → Parser → ℕ → ℕ → Next
step_in in_method raw p b count = step_method raw p b count
step_in in_path raw p b count = step_path raw p b count
step_in in_options raw p b count = step_options raw p b count
step_in in_version raw p b count = step_version p b count
step_in in_header raw p b count = step_header p b count
step_in in_body raw p b count = step_body p b count

-- How a call of `parse` ends. `out_of_bounds` is a write behind the end of the buffer.
pub data Outcome : Type 0 where
  parsed : Bool → Proto → Bytes → Outcome
  exception : Fail → Outcome
  out_of_bounds : Outcome

-- `m_data[raw_size - m_current] = 0`, where a POST request comes to its body; `m_data` points to
-- `m_raw[m_current]`. `none` is a write behind the end of the buffer. If the difference were below
-- zero it would wrap around, to a place far behind.
pub write_body : Bytes → ℕ → Parser → ℕ → Option Bytes
write_body raw raw_size p b =
    if is_body p.state && (not (is_newline b) && is_post p.proto.method)
    then (let place = p.current + (raw_size - p.current) in
        if leb p.current raw_size && ltb place (length raw) then some (set raw place 0) else none)
    else some raw

pub parse_loop : Bytes → ℕ → Bytes → ℕ → Parser → Outcome
unfolding write_body step_method step_path step_options step_header step_body
parse_loop raw raw_size [] count p = parsed true p.proto raw
parse_loop raw raw_size (b ∷ todo) count p = elim (write_body raw raw_size p b) [
  | none ↦ out_of_bounds
  | some raw' ↦ elim (step_in p.state raw' p b count) [
    | going p' ↦ parse_loop raw' raw_size todo (count + 1) p'
    | returned res proto ↦ parsed res proto raw'
    | thrown e ↦ exception e
  ]
]

abbrev pub initial : Proto → ℕ → Parser
initial proto raw_size = record {
  state = in_method;
  current = 0;
  cvalue = 0;
  flag_2n = false;
  proto = record proto { params = []; path = []; body_at = raw_size };
}

unfoldable pub parse : Proto → Bytes → ℕ → Outcome
unfolding parse_loop
parse proto raw raw_size =
    let raw' = set raw raw_size 0 in
    if ltb raw_size (length raw)
    then parse_loop raw' raw_size (take raw_size raw') 0 (initial proto raw_size)
    else out_of_bounds

-- `data()` as a C string: the bytes from there up to a zero.
abbrev pub c_str : Bytes → Bytes
c_str [] = []
c_str (b ∷ s) = if b == 0 then [] else b ∷ c_str s

unfoldable pub body : Proto → Bytes → Bytes
body proto raw = c_str (drop proto.body_at raw)
