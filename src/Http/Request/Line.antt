-- ===== src/Http/Request/Line.antt =====
-- What `parse` makes of a GET request with no query string.
use highload_cup.Common.{
  ℕ, ◌+◌, ◌-◌, ◌<◌, ◌≡◌, ◌≢◌, ◌⊎◌, refl, ap, ◌∙◌, true, false, [], ◌∷◌, ◌++◌, arith, lt→ltb, inl,
  inr, Bytes, codes, length, length-append, set, take, All, append_assoc, take-length-append,
}
use highload_cup.Http.Method.{get, method_from_str}
use highload_cup.Http.Request.Steps.{
  skip, step_going, IsPathByte, IsLineByte, version-Passes, run_path, length_pos, run_header_get,
}
use highload_cup.Http.Request.{
  in_path, in_version, in_header, Proto, Parser, going, step_in, step_version, parsed, initial,
  parse, parse_loop,
}
use highload_cup.Http.Request.Loop.{read_loop}
use highload_cup.Http.Request.Written.{parse_loop-read}

set-append : (s t : Bytes) (o : ℕ) → set (s ++ o ∷ t) (length s) 0 ≡ s ++ 0 ∷ t
set-append [] t o = refl
set-append (c ∷ s) t o = ap (λ x. c ∷ x) (set-append s t o)

-- A request in a buffer that is longer: the loop runs over the request, with a zero behind it.
pub parse_start :
    (proto : Proto) (text old : Bytes) (o : ℕ)
    → parse proto (text ++ o ∷ old) (length text)
      ≡ read_loop (text ++ 0 ∷ old) text 0 (initial proto (length text))
unfolding parse
parse_start proto text old o =
    let n = length text in
    let fits : n < length (text ++ o ∷ old) = omega (arith, length-append text (o ∷ old)) in
    let reads =
      parse_loop-read (text ++ o ∷ old) n fits text 0 (initial proto n) (omega arith) (omega arith)
        (omega arith) in
    rw (lt→ltb n (length (text ++ o ∷ old)) fits) (
      ap (λ t. parse_loop (set (text ++ o ∷ old) n 0) n t 0 (initial proto n))
        (ap (λ t. take n t) (set-append text old o) ∙ take-length-append text (0 ∷ old))
      ∙ reads
      ∙ ap (λ t. read_loop t text 0 (initial proto n)) (set-append text old o))

-- The object behind the word GET.
abbrev pub got : Proto → ℕ → Proto
got proto size = record proto { params = []; method = get; path = []; body_at = size }

pub run_get :
    (proto : Proto) (size : ℕ) (raw todo : Bytes)
    → read_loop (codes "GET " ++ raw) (codes "GET " ++ todo) 0 (initial proto size)
      ≡ read_loop (codes "GET " ++ raw) todo 4 (record {
        state = in_path;
        current = 4;
        cvalue = 0;
        flag_2n = false;
        proto = got proto size;
      })
unfolding read_loop method_from_str
run_get proto size raw todo = refl

pub version_ends :
    (raw : Bytes) (p : Parser) (b count : ℕ)
    → p.state ≡ in_version
    → (b ≡ b'\n') ⊎ (b ≡ b'\r')
    → p.current < count
    → step_in p.state raw p b count ≡ going (record p { state = in_header; current = count + 1 })
unfolding step_version
version_ends raw p b count at (inl e) h = rw (at, e, lt→ltb 0 (count - p.current) (omega arith))
version_ends raw p b count at (inr e) h = rw (at, e, lt→ltb 0 (count - p.current) (omega arith))

-- The text of a GET request with no query string.
abbrev pub get_text : Bytes → Bytes → ℕ → Bytes → Bytes
get_text path version eol tail = codes "GET " ++ (path ++ (b' ' ∷ (version ++ eol ∷ tail)))

-- A GET request with no query string, in a buffer that is longer than it, is accepted, and its
-- method and its path are read: the path is any text with no space and no `?`, then comes a space,
-- any text in one line, the end of the line, and a header of any bytes.
pub parse_get :
    (proto : Proto) (path version tail old : Bytes) (eol o : ℕ)
    → path ≢ []
    → All IsPathByte path
    → version ≢ []
    → All IsLineByte version
    → (eol ≡ b'\n') ⊎ (eol ≡ b'\r')
    → parse proto
        (get_text path version eol tail ++ o ∷ old)
        (length (get_text path version eol tail))
      ≡ parsed true
          (record {
            params = [];
            method = get;
            path = path;
            body_at = length (get_text path version eol tail);
          })
          (get_text path version eol tail ++ 0 ∷ old)
parse_get proto path version tail old eol o pne hp vne hv he =
    let line = version ++ eol ∷ tail in
    let size = length (get_text path version eol tail) in
    let raw = get_text path version eol tail ++ 0 ∷ old in
    let at_path : Parser = record {
      state = in_path;
      current = 4;
      cvalue = 0;
      flag_2n = false;
      proto = got proto size;
    } in
    let at_version : Parser = record at_path {
      proto = record (got proto size) { path = path };
      state = in_version;
      current = 4 + length path + 1;
    } in
    let count = 4 + length path + 1 + length version in
    let in_text : 4 + length path + 1 < count = omega (arith, length_pos version vne) in
    parse_start proto (get_text path version eol tail) old o
    ∙ run_get proto size ((path ++ (b' ' ∷ line)) ++ 0 ∷ old) (path ++ (b' ' ∷ line))
    ∙ run_path raw (codes "GET ") path ((b' ' ∷ line) ++ 0 ∷ old) b' '
        (ap (λ x. codes "GET " ++ x) (append_assoc path (b' ' ∷ line) (0 ∷ old))) at_path refl refl
        hp pne (inl refl) line
    ∙ skip raw version (eol ∷ tail) (4 + length path + 1) at_version
        (version-Passes raw at_version version refl hv)
    ∙ step_going raw tail eol count at_version _
        (version_ends raw at_version eol count refl he in_text)
    ∙ run_header_get raw tail (count + 1)
        (record at_version { state = in_header; current = count + 1 }) refl refl
