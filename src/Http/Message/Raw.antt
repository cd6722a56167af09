-- ===== src/Http/Message/Raw.antt =====
-- `http_proto::to_raw` (include/http_proto.cpp). The order in which an unordered map gives its
-- entries, and the text of `expires`, which reads the clock, are parameters.
pub mod Lines
pub mod Headers
pub mod Requests
pub mod Forms
use highload_cup.Common.{
  ℕ, ◌+◌, Bool, true, false, not, List, [], ◌∷◌, ◌++◌, Option, none, some, ltb, if◌then◌else◌,
  Bytes, codes, length, Result, ok, ◌>>=◌,
}
use highload_cup.Common.Text.{to_string}
use highload_cup.Util.Text.{find_text}
use highload_cup.Http.Quote.{quote}
use highload_cup.Http.Method.{method_to_str}
use highload_cup.Http.Status.{status_to_str, is_204}
use highload_cup.Http.Version.{to_str}
use highload_cup.Http.Params.{query_loop}
use highload_cup.Http.Message.{Message, Field, Table, val}

abbrev pub line_end : Bytes
line_end = codes "\r\n"

abbrev pub header_server : Bytes
header_server = codes "Server: SP (0.1)\r\n"

abbrev pub header_connection : Bytes
header_connection = codes "Connection: keep-alive\r\n"

-- `for (auto& pr : m_header)`.
unfoldable pub header_loop : Table Bytes → Bytes
header_loop [] = []
header_loop ((key, v) ∷ rest) = key ++ (codes ": " ++ (v ++ (line_end ++ header_loop rest)))

-- `for (auto& pr : m_cookie)`.
pub cookie_loop : Bool → Table Bytes → Bytes
cookie_loop flag [] = []
cookie_loop flag ((key, v) ∷ rest) =
    (if flag then codes "; " else []) ++ (key ++ (codes "=" ++ (v ++ cookie_loop true rest)))

-- `for (auto& pr : m_post)`: what is in `data_temp`.
pub post_loop : Bool → Table Field → Bytes → Result Bytes
unfolding val quote
post_loop flag [] data_temp = ok data_temp
post_loop flag ((key, field) ∷ rest) data_temp = val field >>= λ v.
    post_loop true rest (
      (if flag then data_temp ++ b'&' ∷ [] else data_temp) ++ (quote key ++ (codes "=" ++ quote v)))

module _ (order : (V : Type 0) → Table V → Table V) (expires : Bytes) where
  -- The path, with the parameters behind those that it may have already.
  pub path_part : Message → Bytes
  unfolding find_text query_loop
  path_part m =
      if ltb 0 (length m.gets)
      then elim (find_text (codes "?") m.path 0) [
        | none ↦ query_loop false (order Bytes m.gets) (m.path ++ codes "?")
        | some pos ↦ query_loop true (order Bytes m.gets) m.path
      ]
      else m.path

  -- The first line of a request, or the first four of a reply.
  pub first_part : Bool → Message → Result Bytes
  unfolding path_part method_to_str status_to_str to_str
  first_part true m = to_str m.ver >>= λ ver.
      ok
        (method_to_str m.method ++ (codes " " ++ (path_part m ++ (codes " " ++ (ver ++ line_end)))))
  first_part false m = to_str m.ver >>= λ ver. ok (
      ver
      ++ (codes " "
          ++ (status_to_str m.status
              ++ (line_end
                  ++ (codes "Status: "
                      ++ (status_to_str m.status
                          ++ (line_end ++ (header_server ++ header_connection))))))))

  pub cookie_part : Bool → Message → Bytes
  unfolding cookie_loop
  cookie_part req m =
      if ltb 0 (length m.cookies)
      then (if req then codes "Cookie: " else codes "Set-Cookie: ")
        ++ (cookie_loop false (order Bytes m.cookies)
            ++ ((if req then [] else codes "; expires=" ++ (expires ++ codes "; secure"))
                ++ line_end))
      else []

  -- The length, the empty line and the data.
  pub data_part : Bool → Bool → Message → Result Bytes
  unfolding post_loop to_string
  data_part true include_data m = post_loop false (order Field m.posts) [] >>= λ data_temp. ok (
      (if ltb 0 (length m.posts)
        then codes "Content-Length: " ++ to_string (length data_temp)
        else [])
      ++ (codes "\r\n\r\n" ++ data_temp))
  data_part false include_data m = ok (
      (if is_204 m.status then [] else codes "Content-Length: " ++ to_string (length m.body))
      ++ (codes "\r\n\r\n" ++ (if include_data then m.body else [])))

  unfoldable pub to_raw : Bool → Bool → Message → Result Bytes
  unfolding first_part header_loop cookie_part data_part
  to_raw req include_data m = first_part req m >>= λ first. data_part req include_data m >>= λ last.
      ok (first ++ (header_loop (order Bytes m.headers) ++ (cookie_part req m ++ last)))
