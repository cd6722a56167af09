-- ===== src/Http/Message/Parse.antt =====
-- `http_proto::parse` (include/http_proto.cpp), for requests and replies. What a call has not read
-- yet stays in the object, and the next call goes on from there.
pub mod Steps
pub mod Lines
pub mod Table
pub mod FirstLine
pub mod RequestParts
pub mod RequestLine
pub mod RequestEnd
pub mod Reply
use highload_cup.Common.{
  ℕ, ◌+◌, ◌-◌, Bool, true, false, not, ◌&&◌, ◌||◌, List, [], ◌∷◌, map, ltb, leb, ◌==◌,
  if◌then◌else◌, Bytes, codes, bytes_eq, slice, drop, length, Result, ok, throw, ◌>>=◌, Fail,
  bad_index, bad_length,
}
use highload_cup.Util.Numbers.{format_size}
use highload_cup.Http.Method.{full_method_from_str, is_get, is_post}
use highload_cup.Http.Status.{is_unknown, status_from_int}
use highload_cup.Http.Version.{Version, version_of}
use highload_cup.Http.Message.{
  Message, Stage, in_method, in_path, in_options, in_version, in_status, in_header, in_body,
  urlencoded, add_get, add_cookie, add_header, header_int,
}
use highload_cup.Http.Message.Body.{parse_body}

-- One round of the loop goes on, returns, or throws.
pub data Next : Type 0 where
  going : Message → Next
  returned : Bool → Message → Next
  thrown : Fail → Next

-- How a call ends.
pub data Outcome : Type 0 where
  parsed : Bool → Message → Outcome
  exception : Fail → Outcome

abbrev pub is_newline : ℕ → Bool
is_newline b = b == b'\n' || b == b'\r'

-- What is in the buffer from `m_current` up to `count`.
abbrev pub token : Message → ℕ → Bytes
token m count = slice m.raw m.current (count - m.current)

-- A call that may throw, and what follows it.
abbrev pub next_of : Result Message → (Message → Next) → Next
next_of (ok m) f = f m
next_of (throw e) f = thrown e

abbrev pub is_empty : Stage → Bool
is_empty in_method = true
is_empty _ = false

-- `::tolower` in the C locale.
abbrev pub tolower : ℕ → ℕ
tolower b = if leb b'A' b && leb b b'Z' then b + 32 else b

pub step_method : ℕ → ℕ → Message → Next
unfolding full_method_from_str
step_method b count m =
    if b == b' '
    then (if ltb 0 (count - m.current)
        then going (record m {
          method = full_method_from_str (token m count);
          stage = in_path;
          current = count + 1;
        })
        else returned false m)
    else going m

pub step_path : ℕ → ℕ → Message → Next
step_path b count m =
    if b == b' ' || b == b'?'
    then (if ltb 0 (count - m.current)
        then going (record m {
          path = token m count;
          stage = if b == b'?' then in_options else in_version;
          current = count + 1;
        })
        else returned false m)
    else going m

-- A status that the object has already is kept. The token behind it is read over.
pub step_status : ℕ → ℕ → Message → Next
unfolding format_size status_from_int
step_status b count m =
    if b == b'\n'
    then going (record m { stage = in_header; current = count + 1 })
    else if b == b' ' && is_unknown m.status
    then (if ltb 0 (count - m.current)
        then next_of
            (format_size (token m count) >>= λ n. ok (record m { status = status_from_int n }))
            (λ m'. going m')
        else returned false m)
    else going m

-- `*hf_name == "cookie"`.
pub add_cookies : Bytes → ℕ → Message → Result Message
add_cookies hf_name count m =
    if bytes_eq hf_name (codes "cookie")
    then urlencoded m m.cvalue count add_cookie b';' false
    else ok m

-- A line that has a name: `at(m_cvalue)` may be behind the buffer, and the size of a value that
-- would begin behind the end of its line is far above that of any string.
pub store_line : ℕ → Message → Result Message
unfolding add_cookies
store_line count m =
    if leb (length m.raw) m.cvalue
    then throw bad_index
    else if ltb count m.cvalue
    then throw bad_length
    else (let hf_name = map tolower (slice m.raw m.current (m.cvalue - m.current - 2)) in
        add_cookies hf_name count (add_header m hf_name (slice m.raw m.cvalue (count - m.cvalue))))

pub end_line : ℕ → Message → Next
unfolding store_line
end_line count m =
    if ltb (m.current + 2) m.cvalue
    then next_of (store_line count m) (λ m'. going (record m' { current = count + 1 }))
    else going (record m { current = count + 1 })

pub step_header : Bool → ℕ → ℕ → Message → Next
unfolding end_line
step_header req b count m =
    if is_newline b
    then (if b == b'\n' && m.flag_2n
        then (if req && is_get m.method
            then returned true m
            else going (record m { stage = in_body; current = count + 1 }))
        else end_line count (record m { flag_2n = if b == b'\n' then true else m.flag_2n }))
    else if b == b':' && ltb m.cvalue m.current
    then going (record m { cvalue = count + 2 })
    else going (record m { flag_2n = false })

-- Behind the computation of `m_content_length`: a body that is not there in full is left unread.
abbrev pub take_body : Bool → Message → Next
take_body req m =
    if ltb 0 m.content_length && ltb (length m.raw - m.current) m.content_length
    then returned false m
    else if req && is_post m.method
    then next_of (parse_body m) (λ m'. returned true m')
    else returned true m

pub step_body : Bool → ℕ → ℕ → Message → Next
unfolding header_int parse_body
step_body req b count m =
    if is_newline b
    then going (record m { current = count + 1 })
    else next_of
        (header_int m (codes "content-length") 0 >>= λ n. ok (record m { content_length = n }))
        (take_body req)

module _ (split : Bytes → Bytes → List Bytes) (unset : Version) (req : Bool) where
  -- `count - m_current` wraps around where `m_current` has just been set behind `count`, and
  -- `at(m_current)` is read before the string is built.
  pub step_version : ℕ → ℕ → Message → Next
  unfolding version_of
  step_version b count m =
      if (req && is_newline b) || (not req && b == b' ')
      then (if ltb count m.current
          then (if leb (length m.raw) m.current then thrown bad_index else thrown bad_length)
          else if ltb 0 (count - m.current)
          then next_of
              (version_of split unset (token m count) >>= λ ver. ok (record m { ver = ver }))
              (λ m'.
                going
                  (record m' { stage = if req then in_header else in_status; current = count + 1 }))
          else returned false m)
      else going m

  -- There is no `break`: the case of the version follows.
  pub step_options : ℕ → ℕ → Message → Next
  unfolding step_version
  step_options b count m =
      if b == b' '
      then (if ltb 0 (count - m.current)
          then next_of (urlencoded m m.current count add_get b'&' true)
              (λ m'. step_version b count (record m' { current = count + 1 }))
          else step_version b count (record m { current = count + 1 }))
      else step_version b count m

  -- The switch.
  abbrev pub step_in : Stage → ℕ → ℕ → Message → Next
  step_in in_method b count m = step_method b count m
  step_in in_path b count m = step_path b count m
  step_in in_options b count m = step_options b count m
  step_in in_version b count m = step_version b count m
  step_in in_status b count m = step_status b count m
  step_in in_header b count m = step_header req b count m
  step_in in_body b count m = step_body req b count m

  pub parse_loop : Bytes → ℕ → Message → Outcome
  unfolding step_method step_path step_options step_status step_header step_body
  parse_loop [] count m = parsed true m
  parse_loop (b ∷ todo) count m = elim (step_in m.stage b count m) [
    | going m' ↦ parse_loop todo (count + 1) m'
    | returned res m' ↦ parsed res m'
    | thrown e ↦ exception e
  ]

  unfoldable pub parse : Message → Outcome
  unfolding parse_loop
  parse m =
      let m' = if not req && is_empty m.stage then record m { stage = in_version } else m in
      parse_loop (drop m.current m.raw) m.current m'
