-- ===== src/Examples/Requests.antt =====
-- Requests: numbers, query strings, request texts and their answers.
use mathlib.Core.List.{foldl}
use highload_cup.Common.{
  arith, ◌≤◌, ◌^◌, ◌+◌, ◌-◌, List, ◌≡◌, refl, ◌↔◌, inr, Bool, true, false, [], ◌∷◌, ◌++◌, Bytes,
  codes, length, ltb, ◌==◌, if◌then◌else◌, All, ok, ◌>>=◌,
}
use highload_cup.Util.Numbers.{itoa, format_uint32, format_long}
use highload_cup.Util.Numbers.Decimal.{IsDigit, value}
use highload_cup.Util.Numbers.Parse.{format_uint32_exact, format_long_exact}
use highload_cup.Util.Numbers.RoundTrip.{format_uint32-itoa}
use highload_cup.Http.Quote.{quote, unquote}
use highload_cup.Http.Quote.RoundTrip.{AllBytes, unquote-quote}
use highload_cup.Http.Method.{
  get, post, unknown, full_method_from_str, method_to_str, full_method_from_str-method_to_str,
}
use highload_cup.Http.Params.{parse_urlencoded, query_string}
use highload_cup.Http.Params.Written.{Param, IsWritable}
use highload_cup.Http.Params.RoundTrip.{apply_param, parse_urlencoded-query_string}
use highload_cup.Http.Request.{Proto, parsed, parse, add_get}
use highload_cup.Http.Request.Steps.{IsPathByte, IsLineByte}
use highload_cup.Http.Request.Line.{get_text, parse_get}
use highload_cup.Http.Request.Query.{query_text, stored, parse_query}
use highload_cup.Store.Libs.{done}
use highload_cup.Store.State.{Base, construct}
use highload_cup.Store.Read.{get_object}
use highload_cup.Store.Instances.{list_map, known_libs, new_year}
use highload_cup.Processor.Routes.Paths.{object_path, call_path}
use highload_cup.Processor.Handle.{answer, handle_visits, handle_avg, serve}
use highload_cup.Processor.Handle.Serve.{is_name_sound, serve_object, serve_visits, serve_avg}

are_bytes : Bytes → Bool
are_bytes [] = true
are_bytes (b ∷ w) = if ltb b 256 then are_bytes w else false

are_bytes_sound : (w : Bytes) → are_bytes w ≡ true → AllBytes w
unfolding are_bytes
are_bytes_sound [] h = tt
are_bytes_sound (b ∷ w) h = (ground arith, are_bytes_sound w (ground arith))

is_path : Bytes → Bool
is_path [] = true
is_path (b ∷ w) = if b == b' ' then false else if b == b'?' then false else is_path w

is_path_sound : (w : Bytes) → is_path w ≡ true → All IsPathByte w
unfolding is_path
is_path_sound [] h = tt
is_path_sound (b ∷ w) h = ((ground arith, ground arith), is_path_sound w (ground arith))

is_line : Bytes → Bool
is_line [] = true
is_line (b ∷ w) = if ltb 31 b then is_line w else false

is_line_sound : (w : Bytes) → is_line w ≡ true → All IsLineByte w
unfolding is_line
is_line_sound [] h = tt
is_line_sound (b ∷ w) h = ((ground arith, ground arith), is_line_sound w (ground arith))

abbrev two_params : List Param
two_params = (codes "country", codes "A B") ∷ (codes "toDate", codes "7") ∷ []

two_params-IsWritable : IsWritable two_params
unfolding are_bytes
two_params-IsWritable = (
  are_bytes_sound (codes "country") refl,
  are_bytes_sound (codes "A B") refl,
  (λ e. cc),
  (are_bytes_sound (codes "toDate") refl, are_bytes_sound (codes "7") refl, (λ e. cc), (λ e. cc)),
)

abbrev pub in_russia : List Param
in_russia = (codes "country", codes "RU") ∷ []

pub in_russia-IsWritable : IsWritable in_russia
unfolding are_bytes
in_russia-IsWritable = (
  are_bytes_sound (codes "country") refl,
  are_bytes_sound (codes "RU") refl,
  (λ e. cc),
  (λ e. cc),
)

abbrev some_base : Base list_map
some_base = construct list_map known_libs new_year

abbrev pub old_request : Proto
old_request = record { params = []; method = unknown; path = []; body_at = 0 }

format_uint32_exact_example : (format_uint32 (codes "042") ≡ ok 42) ↔ (
    All IsDigit (codes "042")
    × (length (codes "042") ≤ 10)
    × (42 ≡ value 0 (codes "042"))
    × (42 ≤ 2 ^ 32 - 1))
format_uint32_exact_example = format_uint32_exact (codes "042") 42

format_long_exact_example : (format_long (codes "-5") ≡ ok 5) ↔ (
    All IsDigit (codes "-5")
    × (length (codes "-5") ≤ 19)
    × (5 ≡ value 0 (codes "-5"))
    × (5 ≤ 2 ^ 63 - 1))
format_long_exact_example = format_long_exact (codes "-5") 5

format_uint32-itoa_example : (itoa 4294967295 10 >>= format_uint32) ≡ ok 4294967295
format_uint32-itoa_example = format_uint32-itoa 4294967295 (omega arith)

unquote-quote_example : unquote (quote (codes "50% / a+b")) ≡ codes "50% / a+b"
unfolding are_bytes
unquote-quote_example = unquote-quote (codes "50% / a+b") (are_bytes_sound (codes "50% / a+b") refl)

post_read_back : full_method_from_str (method_to_str post) ≡ post
post_read_back = full_method_from_str-method_to_str post

parse_urlencoded-query_string_example :
    parse_urlencoded
      (codes "/x?" ++ (query_string two_params ++ codes " HTTP"))
      3
      (3 + length (query_string two_params))
      add_get
      b'&'
      true
      []
    ≡ ok (foldl (apply_param add_get) [] two_params)
parse_urlencoded-query_string_example =
    parse_urlencoded-query_string add_get two_params (codes "/x?") (codes " HTTP") []
      two_params-IsWritable

users_path : All IsPathByte (codes "/users/1")
unfolding is_path
users_path = is_path_sound (codes "/users/1") refl

plain_request_read :
    parse old_request
      (get_text (codes "/users/1") (codes "HTTP/1.1") b'\r' (codes "\n\r\n") ++ 7 ∷ [])
      (length (get_text (codes "/users/1") (codes "HTTP/1.1") b'\r' (codes "\n\r\n")))
    ≡ parsed true
        (record {
          params = [];
          method = get;
          path = codes "/users/1";
          body_at = length (get_text (codes "/users/1") (codes "HTTP/1.1") b'\r' (codes "\n\r\n"));
        })
        (get_text (codes "/users/1") (codes "HTTP/1.1") b'\r' (codes "\n\r\n") ++ 0 ∷ [])
unfolding is_line
plain_request_read =
    parse_get old_request (codes "/users/1") (codes "HTTP/1.1") (codes "\n\r\n") [] b'\r' 7
      (λ e. cc) users_path (λ e. cc) (is_line_sound (codes "HTTP/1.1") refl) (inr refl)

query_request_read :
    parse old_request
      (query_text (codes "/users/1") two_params (codes "HTTP") ++ 7 ∷ [])
      (length (query_text (codes "/users/1") two_params (codes "HTTP")))
    ≡ parsed true
        (record {
          params = stored two_params;
          method = get;
          path = codes "/users/1";
          body_at = length (query_text (codes "/users/1") two_params (codes "HTTP"));
        })
        (query_text (codes "/users/1") two_params (codes "HTTP") ++ 0 ∷ [])
query_request_read =
    parse_query old_request (codes "/users/1") (codes "HTTP") [] 7 (codes "country", codes "A B")
      ((codes "toDate", codes "7") ∷ []) (λ e. cc) users_path two_params-IsWritable

prints_12 : itoa 12 10 ≡ ok (codes "12")
unfolding itoa
prints_12 = refl

serve_object_example :
    serve known_libs some_base old_request
      (get_text
          (object_path (codes "visits") (codes "12"))
          (codes "HTTP/1.1")
          b'\r'
          (codes "\n\r\n")
        ++ 7 ∷ [])
      (length (
        get_text
          (object_path (codes "visits") (codes "12"))
          (codes "HTTP/1.1")
          b'\r'
          (codes "\n\r\n")))
    ≡ done (
      (get_object some_base (codes "visits") 12).0,
      answer (get_object some_base (codes "visits") 12).1,
    )
unfolding is_line
serve_object_example =
    serve_object 12 (codes "12") (omega arith) prints_12 known_libs some_base old_request
      (codes "visits") (codes "HTTP/1.1") (codes "\n\r\n") [] b'\r' 7
      (is_name_sound (codes "visits") refl).0 (is_name_sound (codes "visits") refl).1 (λ e. cc)
      (is_line_sound (codes "HTTP/1.1") refl) (inr refl)

serve_visits_example :
    serve known_libs some_base old_request
      (query_text
          (call_path (codes "users") (codes "12") (codes "visits"))
          two_params
          (codes "HTTP")
        ++ 7 ∷ [])
      (length (
        query_text
          (call_path (codes "users") (codes "12") (codes "visits"))
          two_params
          (codes "HTTP")))
    ≡ done (some_base, handle_visits some_base (codes "12") two_params)
serve_visits_example =
    serve_visits 12 (codes "12") (omega arith) prints_12 known_libs some_base old_request
      (codes "HTTP") [] 7 (codes "country", codes "A B") ((codes "toDate", codes "7") ∷ [])
      two_params-IsWritable

serve_avg_example :
    serve known_libs some_base old_request
      (query_text
          (call_path (codes "locations") (codes "12") (codes "avg"))
          two_params
          (codes "HTTP")
        ++ 7 ∷ [])
      (length (
        query_text
          (call_path (codes "locations") (codes "12") (codes "avg"))
          two_params
          (codes "HTTP")))
    ≡ done (some_base, handle_avg known_libs some_base (codes "12") two_params)
serve_avg_example =
    serve_avg 12 (codes "12") (omega arith) prints_12 known_libs some_base old_request
      (codes "HTTP") [] 7 (codes "country", codes "A B") ((codes "toDate", codes "7") ∷ [])
      two_params-IsWritable
