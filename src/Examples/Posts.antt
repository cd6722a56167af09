-- ===== src/Examples/Posts.antt =====
-- POST requests from the text to the base, and the bound of the buffer.
use highload_cup.Common.{
  arith, ◌≡◌, ◌↔◌, ◌≤◌, refl, Bool, true, not, ◌&&◌, ◌==◌, List, [], ◌∷◌, ◌++◌, if◌then◌else◌,
  Bytes, codes, length, All, ok,
}
use highload_cup.Util.Numbers.{itoa}
use highload_cup.Http.Method.{unknown}
use highload_cup.Http.Request.{Proto, out_of_bounds, parse}
use highload_cup.Http.Request.Steps.{IsLineByte}
use highload_cup.Http.Request.Header.{IsLine}
use highload_cup.Http.Request.Post.{post_text, IsText}
use highload_cup.Http.Request.Bounds.{parse-out_of_bounds}
use highload_cup.Store.Libs.{done, ◌>>=◌}
use highload_cup.Store.State.{Base, construct}
use highload_cup.Store.Insert.{insert}
use highload_cup.Store.Update.{update}
use highload_cup.Store.Instances.{list_map, known_libs, new_year}
use highload_cup.Processor.Answers.{bad_request, empty_object}
use highload_cup.Processor.Routes.Paths.{object_path}
use highload_cup.Processor.Handle.{serve, update_reply}
use highload_cup.Processor.Handle.Serve.{is_name_sound}
use highload_cup.Processor.Handle.ServePost.{serve_insert, serve_change}

abbrev start_base : Base list_map
start_base = construct list_map known_libs new_year

abbrev fresh_request : Proto
fresh_request = record { params = []; method = unknown; path = []; body_at = 0 }

-- Bytes of a text in one line, and no zero.
abbrev plain : Bytes → Bool
plain [] = true
plain (b ∷ s) = not (b == b'\n') && (not (b == b'\r') && (not (b == 0) && plain s))

plain_line : (s : Bytes) → plain s ≡ true → All IsLineByte s
plain_line [] h = tt
plain_line (b ∷ s) h = ((ground arith, ground arith), plain_line s (ground arith))

plain-IsText : (s : Bytes) → plain s ≡ true → IsText s
plain-IsText [] h = tt
plain-IsText (b ∷ s) h = (ground arith, plain-IsText s (ground arith))

abbrev headers : List Bytes
headers = codes "Host: a" ∷ codes "Content-Length: 5" ∷ []

headers-IsLine : All IsLine headers
headers-IsLine = (
  (omega arith, plain_line (codes "Host: a") refl),
  ((omega arith, plain_line (codes "Content-Length: 5") refl), tt),
)

abbrev new_visit : Bytes
new_visit =
    post_text (object_path (codes "visits") (codes "new")) (codes "HTTP/1.1") headers
      (codes "visit")

serve_insert_example :
    serve known_libs start_base fresh_request (new_visit ++ 7 ∷ []) (length new_visit) ≡ (
      insert known_libs start_base (codes "visits") (codes "visit") >>= λ (b', inserted).
      done (b', if inserted then empty_object else bad_request))
serve_insert_example =
    serve_insert known_libs start_base fresh_request (codes "visits") (codes "HTTP/1.1") headers
      b'v' (codes "isit") [] 7 (is_name_sound (codes "visits") refl).0
      (is_name_sound (codes "visits") refl).1 (λ e. cc) (plain_line (codes "HTTP/1.1") refl)
      headers-IsLine (omega arith, omega arith) (plain-IsText (codes "visit") refl)

prints_5 : itoa 5 10 ≡ ok (codes "5")
unfolding itoa
prints_5 = refl

abbrev changed_visit : Bytes
changed_visit =
    post_text (object_path (codes "visits") (codes "5")) (codes "HTTP/1.1") headers (codes "moved")

serve_change_example :
    serve known_libs start_base fresh_request (changed_visit ++ 7 ∷ []) (length changed_visit) ≡ (
      update known_libs start_base 5 (codes "visits") (codes "moved") >>= λ (b', status).
      done (b', update_reply status))
serve_change_example =
    serve_change known_libs start_base fresh_request (codes "visits") (codes "HTTP/1.1") headers
      b'm' (codes "oved") [] 7 (is_name_sound (codes "visits") refl).0
      (is_name_sound (codes "visits") refl).1 (λ e. cc) (plain_line (codes "HTTP/1.1") refl)
      headers-IsLine (omega arith, omega arith) (plain-IsText (codes "moved") refl) 5 (codes "5")
      (omega arith) prints_5

parse-out_of_bounds_example :
    (parse fresh_request (codes "GET /a b") 8 ≡ out_of_bounds) ↔ (length (codes "GET /a b") ≤ 8)
parse-out_of_bounds_example = parse-out_of_bounds fresh_request (codes "GET /a b") 8
