-- ===== src/Http/Message/RequestHead.antt =====
-- The first line of a request that `http_proto::to_raw` writes, with its parameters, read by
-- `http_proto::parse`.
use highload_cup.Common.{
  arith, ℕ, ◌+◌, ◌<◌, ◌≡◌, ◌≢◌, ◌∙◌, ap, refl, true, List, [], ◌∷◌, ◌++◌, inl, inr, Bytes, length,
  length-append, append_assoc, All, ok,
}
use highload_cup.Http.Method.{Method, full_method_from_str}
use highload_cup.Http.Version.{Version, version_of}
use highload_cup.Http.Params.{parse_urlencoded, query_string}
use highload_cup.Http.Params.Written.{
  IsWritable, IsQueryByte, query_string-IsQueryByte, length-query_string_pos,
}
use highload_cup.Http.Params.RoundTrip.{parse_urlencoded-query_string}
use highload_cup.Http.Message.{Message, Table, in_header, construct, set_raw, add_get, urlencoded}
use highload_cup.Http.Message.Gets.{IsMap, fold-gets}
use highload_cup.Http.Message.Raw.{line_end, header_loop}
use highload_cup.Http.Message.Raw.Requests.{target}
use highload_cup.Http.Message.Parse.{parse_loop}
use highload_cup.Http.Message.Parse.Table.{IsHeader, add_all, at_line, lines_read}
use highload_cup.Http.Message.Parse.RequestParts.{IsPathByte, AtVersion}
use highload_cup.Http.Message.Parse.RequestLine.{
  IsFresh, routed, with_version, path_line, version_line, query_line,
}

-- The object behind the first line of a request.
abbrev pub asked : Message → Bytes → Bytes → Table Bytes → Version → ℕ → Message
asked m word path ps v n = record m {
  method = full_method_from_str word;
  path = path;
  gets = ps;
  ver = v;
  stage = in_header;
  flag_2n = true;
  current = n;
}

params_read :
    (ps : Table Bytes) (before behind : Bytes) (m : Message)
    → m.raw ≡ before ++ (query_string ps ++ behind)
    → m.gets ≡ []
    → IsWritable ps
    → IsMap ps
    → urlencoded m (length before) (length before + length (query_string ps)) add_get b'&' true
      ≡ ok (record m { gets = ps })
params_read ps before behind m raw none_yet writable map =
    ap
      (λ s.
        parse_urlencoded s (length before) (length before + length (query_string ps)) add_get b'&'
          true m)
      raw
    ∙ parse_urlencoded-query_string add_get ps before behind m writable
    ∙ ap (λ w. ok w) (fold-gets ps m none_yet map)

module _ (split : Bytes → Bytes → List Bytes) (unset : Version) where
  module _ (method : Method) (fresh : ℕ) (word path ver back : Bytes) (v : Version) where
    abbrev pub front : Table Bytes → Bytes
    front ps = word ++ (b' ' ∷ (target path ps ++ (b' ' ∷ (ver ++ line_end))))

    abbrev pub reader : Table Bytes → Message
    reader ps = set_raw (construct method fresh) (front ps ++ back)

    -- The version, and the line end behind it.
    last_part :
        (ps : Table Bytes) (before : Bytes) (m : Message)
        → m.raw ≡ before ++ (ver ++ (line_end ++ back))
        → m.current ≡ length before
        → length before + length ver + 2 ≡ length (front ps)
        → AtVersion m
        → IsFresh m
        → 0 < length ver
        → All IsQueryByte ver
        → version_of split unset ver ≡ ok v
        → parse_loop split unset true (ver ++ (line_end ++ back)) (length before) m
          ≡ parse_loop split unset true back
              (length (front ps))
              (with_version m v (length (front ps)))
    last_part ps before m raw at size stage fresh_m full' plain' reads =
        version_line split unset before ver back v m raw at stage fresh_m full' plain' reads
        ∙ ap (λ i. parse_loop split unset true back i (with_version m v i)) size

    pub first_line_read :
        (ps : Table Bytes)
        → 0 < length word
        → All (λ b. b ≢ b' ') word
        → 0 < length path
        → All IsPathByte path
        → IsWritable ps
        → IsMap ps
        → 0 < length ver
        → All IsQueryByte ver
        → version_of split unset ver ≡ ok v
        → parse_loop split unset true (front ps ++ back) 0 (reader ps)
          ≡ parse_loop split unset true back
              (length (front ps))
              (asked (reader ps) word path ps v (length (front ps)))
    first_line_read [] filled_w plain_w full plain writable map full' plain' reads =
        let raw : front [] ++ back
            ≡ word ++ (b' ' ∷ (path ++ (b' ' ∷ (ver ++ (line_end ++ back))))) =
          simp append_assoc in
        let before = word ++ (b' ' ∷ (path ++ (b' ' ∷ []))) in
        let at : length word + length path + 2 ≡ length before = omega (
          arith,
          length-append word (b' ' ∷ (path ++ (b' ' ∷ []))),
          length-append path (b' ' ∷ []),
        ) in
        let size : length before + length ver + 2 ≡ length (front []) = omega (
          arith,
          length-append word (b' ' ∷ (path ++ (b' ' ∷ []))),
          length-append word (b' ' ∷ (path ++ (b' ' ∷ (ver ++ line_end)))),
          length-append path (b' ' ∷ []),
          length-append path (b' ' ∷ (ver ++ line_end)),
          length-append ver line_end,
        ) in
        let m = λ (i : ℕ). routed (reader []) word path b' ' i in
        path_line split unset word path (ver ++ (line_end ++ back)) b' ' (reader []) raw refl refl
          (inl refl) filled_w plain_w full plain
        ∙ ap (λ i. parse_loop split unset true (ver ++ (line_end ++ back)) i (m i)) at
        ∙ last_part [] before (m (length before)) (raw ∙ simp append_assoc) refl size (inl refl)
            (refl, refl) full' plain' reads
    first_line_read (p ∷ ps) filled_w plain_w full plain writable map full' plain' reads =
        let q = query_string (p ∷ ps) in
        let behind = b' ' ∷ (ver ++ (line_end ++ back)) in
        let raw : front (p ∷ ps) ++ back ≡ word ++ (b' ' ∷ (path ++ (b'?' ∷ (q ++ behind)))) =
          simp append_assoc in
        let before = word ++ (b' ' ∷ (path ++ (b'?' ∷ []))) in
        let before' = before ++ (q ++ (b' ' ∷ [])) in
        let at : length word + length path + 2 ≡ length before = omega (
          arith,
          length-append word (b' ' ∷ (path ++ (b'?' ∷ []))),
          length-append path (b'?' ∷ []),
        ) in
        let at' : length before + length q + 1 ≡ length before' =
          omega (arith, length-append before (q ++ (b' ' ∷ [])), length-append q (b' ' ∷ [])) in
        let size : length before' + length ver + 2 ≡ length (front (p ∷ ps)) = omega (
          arith,
          at,
          at',
          length-append word (b' ' ∷ ((path ++ (b'?' ∷ q)) ++ (b' ' ∷ (ver ++ line_end)))),
          length-append (path ++ (b'?' ∷ q)) (b' ' ∷ (ver ++ line_end)),
          length-append path (b'?' ∷ q),
          length-append ver line_end,
        ) in
        let m = λ (i : ℕ). routed (reader (p ∷ ps)) word path b'?' i in
        let filled = λ (i : ℕ). record (m (length before)) { gets = p ∷ ps; current = i } in
        let raw' : front (p ∷ ps) ++ back ≡ before ++ (q ++ behind) = raw ∙ simp append_assoc in
        path_line split unset word path (q ++ behind) b'?' (reader (p ∷ ps)) raw refl refl
          (inr refl) filled_w plain_w full plain
        ∙ ap (λ i. parse_loop split unset true (q ++ behind) i (m i)) at
        ∙ query_line split unset before q (ver ++ (line_end ++ back)) (m (length before))
            (filled (length before)) raw' refl refl (length-query_string_pos p ps)
            (query_string-IsQueryByte (p ∷ ps) writable)
            (params_read (p ∷ ps) before behind (m (length before)) raw' refl writable map)
        ∙ ap (λ i. parse_loop split unset true (ver ++ (line_end ++ back)) i (filled i)) at'
        ∙ last_part (p ∷ ps) before' (filled (length before')) (raw ∙ simp append_assoc) refl size
            (inr refl) (refl, refl) full' plain' reads

-- The first line and the header lines behind it.
pub head_read :
    (split : Bytes → Bytes → List Bytes) (unset : Version) (method : Method) (fresh : ℕ)
    (word path ver rest : Bytes) (v : Version) (ps lines : Table Bytes)
    → 0 < length word
    → All (λ b. b ≢ b' ') word
    → 0 < length path
    → All IsPathByte path
    → IsWritable ps
    → IsMap ps
    → 0 < length ver
    → All IsQueryByte ver
    → version_of split unset ver ≡ ok v
    → All IsHeader lines
    → let back = header_loop lines ++ rest in
      let first = front split unset method fresh word path ver back v ps in
      let m = set_raw (construct method fresh) (first ++ back) in
      let n = length first + length (header_loop lines) in
      (c : ℕ) × (c < n)
      × (parse_loop split unset true (first ++ back) 0 m
          ≡ parse_loop split unset true rest n
              (at_line (asked m word path ps v (length first)) (add_all lines []) c n))
head_read split unset method fresh word path ver rest v ps lines filled_w plain_w full plain
      writable map full' plain' reads headers =
    let back = header_loop lines ++ rest in
    let first = front split unset method fresh word path ver back v ps in
    let m = set_raw (construct method fresh) (first ++ back) in
    let long : 0 < length first =
      omega (arith, length-append word (b' ' ∷ (target path ps ++ (b' ' ∷ (ver ++ line_end))))) in
    let (c, below, lines_end) =
      lines_read split unset true lines first rest 0 [] (asked m word path ps v (length first)) refl
        long headers in
    (
      c,
      below,
      first_line_read split unset method fresh word path ver back v ps filled_w plain_w full plain
            writable map full' plain' reads
          ∙ lines_end,
    )
