-- ===== src/Http/Request/Query.antt =====
-- What `parse` makes of a GET request with a query string.
use mathlib.Core.List.{foldl}
use highload_cup.Common.{
  ℕ, ◌+◌, ◌-◌, ◌<◌, ◌≡◌, ◌≢◌, refl, sym, ap, ◌∙◌, true, false, List, [], ◌∷◌, ◌++◌, arith, lt→ltb,
  inl, inr, Bytes, codes, length, length-append, All, append_assoc, none, some, ok, bytes_eq_iff,
  append-nil, Option-cases,
}
use highload_cup.Http.Method.{get}
use highload_cup.Http.Params.{query_string, parse_urlencoded}
use highload_cup.Http.Params.Written.{
  Param, IsWritable, IsQueryByte, query_string-IsQueryByte, length-query_string_pos,
}
use highload_cup.Http.Params.RoundTrip.{apply_param, parse_urlencoded-query_string}
use highload_cup.Http.Request.Steps.{Passes, skip, step_returned, IsPathByte, run_path}
use highload_cup.Http.Request.{
  in_path, in_options, Proto, Parser, returned, lookup, add_get, step_in, step_options, parsed,
  parse,
}
use highload_cup.Http.Request.Line.{got, run_get, parse_start}

-- In the query string a byte of it is passed over.
query-Passes :
    (raw : Bytes) (p : Parser) (w : Bytes)
    → p.state ≡ in_options
    → All IsQueryByte w
    → All (Passes raw p) w
unfolding step_options
query-Passes raw p [] e h = tt
query-Passes raw p (b ∷ w) e (hb, h) = ((λ count. ground arith), query-Passes raw p w e h)

query_ends :
    (raw : Bytes) (p : Parser) (count : ℕ) (m : List Param)
    → p.state ≡ in_options
    → p.current < count
    → p.proto.method ≡ get
    → parse_urlencoded raw p.current count add_get b'&' true p.proto.params ≡ ok m
    → step_in p.state raw p b' ' count ≡ returned true (record p.proto { params = m })
unfolding step_options
query_ends raw p count m at h g e = rw (at, lt→ltb 0 (count - p.current) (omega arith), e, g)

-- The parameters as `m_get` holds them.
abbrev pub stored : List Param → List Param
stored = foldl (apply_param add_get) []

-- The text of a GET request with the query string that `to_raw` writes for some parameters.
abbrev pub query_text : Bytes → List Param → Bytes → Bytes
query_text path ps tail = codes "GET " ++ (path ++ (b'?' ∷ (query_string ps ++ b' ' ∷ tail)))

-- The query string of a request, where `parse` finds it.
read_query :
    (path more : Bytes) (ps : List Param)
    → IsWritable ps
    → parse_urlencoded
        (codes "GET " ++ (path ++ (b'?' ∷ (query_string ps ++ more))))
        (4 + length path + 1)
        (4 + length path + 1 + length (query_string ps))
        add_get
        b'&'
        true
        []
      ≡ ok (stored ps)
read_query path more ps h =
    let front = codes "GET " ++ (path ++ b'?' ∷ []) in
    let regroup : codes "GET " ++ (path ++ (b'?' ∷ (query_string ps ++ more)))
        ≡ front ++ (query_string ps ++ more) =
      ap (λ x. codes "GET " ++ x) (sym (append_assoc path (b'?' ∷ []) (query_string ps ++ more))) in
    let here : 4 + length path + 1 ≡ length front = omega (arith, length-append path (b'?' ∷ [])) in
    rw (regroup, here) (parse_urlencoded-query_string add_get ps front more [] h)

-- A GET request with the query string that `to_raw` writes for one or more parameters, in a buffer
-- that is longer than it, is accepted as soon as the query ends, and its method, its path and its
-- parameters are read, whatever bytes follow.
pub parse_query :
    (proto : Proto) (path tail old : Bytes) (o : ℕ) (q : Param) (ps : List Param)
    → path ≢ []
    → All IsPathByte path
    → IsWritable (q ∷ ps)
    → parse proto
        (query_text path (q ∷ ps) tail ++ o ∷ old)
        (length (query_text path (q ∷ ps) tail))
      ≡ parsed true
          (record {
            params = stored (q ∷ ps);
            method = get;
            path = path;
            body_at = length (query_text path (q ∷ ps) tail);
          })
          (query_text path (q ∷ ps) tail ++ 0 ∷ old)
parse_query proto path tail old o q ps pne hp hw =
    let query = query_string (q ∷ ps) in
    let line = query ++ b' ' ∷ tail in
    let size = length (query_text path (q ∷ ps) tail) in
    let raw = query_text path (q ∷ ps) tail ++ 0 ∷ old in
    let at_path : Parser = record {
      state = in_path;
      current = 4;
      cvalue = 0;
      flag_2n = false;
      proto = got proto size;
    } in
    let at_query : Parser = record at_path {
      proto = record (got proto size) { path = path };
      state = in_options;
      current = 4 + length path + 1;
    } in
    let count = 4 + length path + 1 + length query in
    let in_text : 4 + length path + 1 < count = omega (arith, length-query_string_pos q ps) in
    parse_start proto (query_text path (q ∷ ps) tail) old o
    ∙ run_get proto size ((path ++ (b'?' ∷ line)) ++ 0 ∷ old) (path ++ (b'?' ∷ line))
    ∙ run_path raw (codes "GET ") path ((b'?' ∷ line) ++ 0 ∷ old) b'?'
        (ap (λ x. codes "GET " ++ x) (append_assoc path (b'?' ∷ line) (0 ∷ old))) at_path refl refl
        hp pne (inr refl) line
    ∙ skip raw query (b' ' ∷ tail) (4 + length path + 1) at_query
        (query-Passes raw at_query query refl (query_string-IsQueryByte (q ∷ ps) hw))
    ∙ step_returned raw tail b' ' count at_query true _ (
        query_ends raw at_query count (stored (q ∷ ps)) refl in_text refl (
          ap
            (λ x.
              parse_urlencoded (codes "GET " ++ x) (4 + length path + 1) count add_get b'&' true [])
            (append_assoc path (b'?' ∷ line) (0 ∷ old)
              ∙ ap (λ x. path ++ (b'?' ∷ x)) (append_assoc query (b' ' ∷ tail) (0 ∷ old)))
          ∙ read_query path (b' ' ∷ tail ++ 0 ∷ old) (q ∷ ps) hw))

lookup-append :
    (key : Bytes) (m n : List Param)
    → lookup key (m ++ n) ≡ (elim (lookup key m) [ none ↦ lookup key n | some v ↦ some v ])
lookup-append key [] n = refl
lookup-append key ((k, v) ∷ m) n = ground (arith, lookup-append key m n)

lookup-add_get :
    (key k v : Bytes) (m : List Param) → lookup key (add_get m k v) ≡ lookup key (m ++ (k, v) ∷ [])
lookup-add_get key k v m = elim (Option-cases (lookup k m)) [
  | inl e ↦ rw (e, add_get)
  | inr (w, e) ↦
      rw (e, add_get) (ground (arith, lookup-append key m ((k, v) ∷ []), bytes_eq_iff k key))
]

lookup-foldl :
    (key : Bytes) (ps m : List Param)
    → lookup key (foldl (apply_param add_get) m ps) ≡ lookup key (m ++ ps)
lookup-foldl key [] m = rw append-nil
lookup-foldl key ((k, v) ∷ ps) m =
    lookup-foldl key ps (add_get m k v)
    ∙ rw (lookup-append key (add_get m k v) ps, lookup-add_get key k v m)
        (sym (lookup-append key (m ++ (k, v) ∷ []) ps) ∙ rw append_assoc)

-- Of two parameters with one name the first counts.
pub lookup-stored : (key : Bytes) (ps : List Param) → lookup key (stored ps) ≡ lookup key ps
lookup-stored key ps = lookup-foldl key ps []
