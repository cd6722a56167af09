-- ===== src/Http/Request/Tests.antt =====
-- Runs of the request parser.
use highload_cup.Common.{◌≡◌, refl, [], ◌∷◌, ◌++◌, Bytes, codes, length, replicate}
use highload_cup.Http.Method.{get, unknown}
use highload_cup.Http.Params.{parse_urlencoded}
use highload_cup.Http.Quote.{unquote}
use highload_cup.Http.Request.{Proto, Outcome, parsed, out_of_bounds, parse, body}

abbrev fresh : Proto
fresh = record { params = []; method = unknown; path = []; body_at = 0 }

-- A buffer of 64 bytes that holds a text, with old bytes behind it.
abbrev buffer : Bytes → Bytes
buffer s = s ++ replicate 30 b'x'

abbrev get_text : Bytes
get_text = codes "GET /users/1/visits?country=RU&x=1 HTTP/1.1\r\nHost: h\r\n\r\n"

abbrev outcome_proto : Outcome → Proto
outcome_proto (parsed b p r) = p
outcome_proto _ = fresh

get_request : outcome_proto (parse fresh (buffer get_text) (length get_text)) ≡ record {
  params = (codes "country", codes "RU") ∷ (codes "x", codes "1") ∷ [];
  method = get;
  path = codes "/users/1/visits";
  body_at = length get_text;
}
unfolding parse parse_urlencoded unquote
get_request = refl

abbrev post_text : Bytes
post_text = codes "POST /users/new HTTP/1.1\r\nHost: h\r\nA: b\r\n\r\n{\"id\":1}"

abbrev outcome_body : Outcome → Bytes
outcome_body (parsed b p r) = body p r
outcome_body _ = []

post_request : outcome_body (parse fresh (buffer post_text) (length post_text)) ≡ codes "{\"id\":1}"
unfolding parse body
post_request = refl

-- A request that fills the buffer is written behind its end.
full_buffer : parse fresh post_text (length post_text) ≡ out_of_bounds
unfolding parse
full_buffer = refl
