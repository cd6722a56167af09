-- ===== src/Http/Request/Post.antt =====
-- What `parse` makes of a POST request.
use highload_cup.Common.{
  arith, ℕ, ◌+◌, ◌<◌, ◌≡◌, ◌≢◌, refl, sym, ap, ◌∙◌, true, false, List, [], ◌∷◌, ◌++◌, ==_false, inl,
  inr, Bytes, codes, length, length-append, drop, drop-length-append, All, append_assoc,
}
use highload_cup.Http.Method.{post, method_from_str}
use highload_cup.Http.Request.{
  in_path, in_version, in_header, Proto, Parser, parsed, initial, parse, body, c_str,
}
use highload_cup.Http.Request.Loop.{read_loop}
use highload_cup.Http.Request.Steps.{
  IsPathByte, IsLineByte, skip, step_going, version-Passes, run_path, length_pos,
}
use highload_cup.Http.Request.Header.{IsLine, header_text, feed_read, lines_read, body_read}
use highload_cup.Http.Request.Line.{parse_start, version_ends}

-- The text of a POST request with a body, and its part in front of the body.
abbrev pub post_head : Bytes → Bytes → List Bytes → Bytes
post_head path version lines =
    codes "POST "
    ++ (path ++ (codes " " ++ (version ++ (codes "\r\n" ++ (header_text lines ++ codes "\r\n")))))

abbrev pub post_text : Bytes → Bytes → List Bytes → Bytes → Bytes
post_text path version lines json =
    codes "POST "
    ++ (path
        ++ (codes " "
            ++ (version ++ (codes "\r\n" ++ (header_text lines ++ (codes "\r\n" ++ json))))))

length-post_head :
    (path version : Bytes) (lines : List Bytes)
    → 5 + length path + 1 + length version + 1 + 1 + length (header_text lines) + 2
      ≡ length (post_head path version lines)
length-post_head path version lines = omega (
  arith,
  length-append path
      (codes " " ++ (version ++ (codes "\r\n" ++ (header_text lines ++ codes "\r\n")))),
  length-append version (codes "\r\n" ++ (header_text lines ++ codes "\r\n")),
  length-append (header_text lines) (codes "\r\n"),
)

post_text-head :
    (path version json : Bytes) (lines : List Bytes)
    → post_text path version lines json ≡ post_head path version lines ++ json
post_text-head path version json lines =
    ap (λ x. codes "POST " ++ x)
      (ap (λ x. path ++ (codes " " ++ x))
          (ap (λ x. version ++ (codes "\r\n" ++ x))
              (sym (append_assoc (header_text lines) (codes "\r\n") json))
            ∙ sym (append_assoc version _ json))
        ∙ sym (append_assoc path _ json))

-- No zero in a text.
abbrev pub IsText : Bytes → Type 0
IsText = All (λ c. c ≢ 0)

c_str-text : (s old : Bytes) → IsText s → c_str (s ++ 0 ∷ old) ≡ s
c_str-text [] old h = refl
c_str-text (c ∷ s) old (hc, h) = rw (==_false c 0 hc) (ap (λ x. c ∷ x) (c_str-text s old h))

-- The body of the request is the text behind its header.
pub body_post :
    (proto : Proto) (path version json old : Bytes) (lines : List Bytes)
    → proto.body_at ≡ length (post_head path version lines)
    → IsText json
    → body proto (post_text path version lines json ++ 0 ∷ old) ≡ json
unfolding body
body_post proto path version json old lines at h =
    ap c_str (
      ap (λ x. drop proto.body_at (x ++ 0 ∷ old)) (post_text-head path version json lines)
      ∙ ap (λ x. drop proto.body_at x) (append_assoc (post_head path version lines) json (0 ∷ old))
      ∙ ap (λ n. drop n (post_head path version lines ++ (json ++ 0 ∷ old))) at
      ∙ drop-length-append (post_head path version lines) (json ++ 0 ∷ old))
    ∙ c_str-text json old h

-- The object behind the word POST.
abbrev posted : Proto → ℕ → Proto
posted proto size = record proto { params = []; method = post; path = []; body_at = size }

run_post :
    (proto : Proto) (size : ℕ) (raw todo : Bytes)
    → read_loop (codes "POST " ++ raw) (codes "POST " ++ todo) 0 (initial proto size)
      ≡ read_loop (codes "POST " ++ raw) todo 5 (record {
        state = in_path;
        current = 5;
        cvalue = 0;
        flag_2n = false;
        proto = posted proto size;
      })
unfolding read_loop method_from_str
run_post proto size raw todo = refl

-- A POST request with a body, in a buffer that is longer than it, is accepted, and its method, its
-- path and the place of its body are read.
pub parse_post :
    (proto : Proto) (path version : Bytes) (lines : List Bytes) (b : ℕ) (rest old : Bytes) (o : ℕ)
    → path ≢ []
    → All IsPathByte path
    → version ≢ []
    → All IsLineByte version
    → All IsLine lines
    → IsLineByte b
    → parse proto
        (post_text path version lines (b ∷ rest) ++ o ∷ old)
        (length (post_text path version lines (b ∷ rest)))
      ≡ parsed true
          (record {
            params = [];
            method = post;
            path = path;
            body_at = length (post_head path version lines);
          })
          (post_text path version lines (b ∷ rest) ++ 0 ∷ old)
parse_post proto path version lines b rest old o pne hp vne hv hl hb =
    let text = post_text path version lines (b ∷ rest) in
    let size = length text in
    let raw = text ++ 0 ∷ old in
    let todo = header_text lines ++ (codes "\r\n" ++ (b ∷ rest)) in
    let line = version ++ (codes "\r\n" ++ todo) in
    let at_path : Parser = record {
      state = in_path;
      current = 5;
      cvalue = 0;
      flag_2n = false;
      proto = posted proto size;
    } in
    let object : Proto = record (posted proto size) { path = path } in
    let at_version : Parser = record at_path {
      proto = object;
      state = in_version;
      current = 5 + length path + 1;
    } in
    let count = 5 + length path + 1 + length version in
    let in_text : 5 + length path + 1 < count = omega (arith, length_pos version vne) in
    let at_header : Parser = record at_version { state = in_header; current = count + 1 } in
    let at_lines : Parser = record at_header { flag_2n = true; current = count + 1 + 1 } in
    let (behind, reads, k) =
      lines_read raw object lines (codes "\r\n" ++ (b ∷ rest)) (count + 1 + 1) at_lines hl
        (refl, refl, refl, refl) in
    parse_start proto text old o
    ∙ run_post proto size ((path ++ (codes " " ++ line)) ++ 0 ∷ old) (path ++ (codes " " ++ line))
    ∙ run_path raw (codes "POST ") path ((codes " " ++ line) ++ 0 ∷ old) b' '
        (ap (λ x. codes "POST " ++ x) (append_assoc path (codes " " ++ line) (0 ∷ old))) at_path
        refl refl hp pne (inl refl) line
    ∙ skip raw version (codes "\r\n" ++ todo) (5 + length path + 1) at_version
        (version-Passes raw at_version version refl hv)
    ∙ step_going raw (b'\n' ∷ todo) b'\r' count at_version at_header
        (version_ends raw at_version b'\r' count refl (inr refl) in_text)
    ∙ step_going raw todo b'\n' (count + 1) at_header at_lines
        (feed_read raw object (count + 1) at_header refl refl)
    ∙ reads
    ∙ body_read raw object b (count + 1 + 1 + length (header_text lines)) rest behind refl hb k
    ∙ ap (λ i. parsed true (record object { body_at = i }) raw)
        (length-post_head path version lines)
