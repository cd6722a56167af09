-- ===== src/Http/Message/Parse/RequestLine.antt =====
-- The first line of a request, read by `parse`.
use highload_cup.Common.{
  arith, ℕ, ◌+◌, ◌-◌, ◌<◌, ◌≡◌, ◌≢◌, ◌⊎◌, inr, ◌∙◌, ap, refl, sym, true, false, List, [], ◌∷◌, ◌++◌,
  ◌==◌, if◌then◌else◌, Bytes, codes, length, length-append, slice-append, append_assoc, All, ok,
}
use highload_cup.Http.Method.{full_method_from_str}
use highload_cup.Http.Version.{Version, version_of}
use highload_cup.Http.Params.Written.{IsQueryByte}
use highload_cup.Http.Message.{
  Message, in_method, in_path, in_options, in_version, in_header, urlencoded, add_get,
}
use highload_cup.Http.Message.Raw.{line_end}
use highload_cup.Http.Message.Parse.{going, parse_loop}
use highload_cup.Http.Message.Parse.Steps.{step_going, skip}
use highload_cup.Http.Message.Parse.RequestParts.{
  IsPathByte, AtVersion, method-Passes, path-Passes, query-Passes, method_read, path_read,
  query_read, version_read, feed_read,
}

-- Fresh for a request: nothing of the header has been read.
abbrev pub IsFresh : Message → Type 0
IsFresh m = (m.flag_2n ≡ false) × (m.cvalue ≡ 0)

-- The object behind the first line.
abbrev pub with_version : Message → Version → ℕ → Message
with_version m v n = record m { ver = v; stage = in_header; flag_2n = true; current = n }

-- The object behind the path and its separator.
abbrev pub routed : Message → Bytes → Bytes → ℕ → ℕ → Message
routed m word path sep n = record m {
  method = full_method_from_str word;
  path = path;
  stage = if sep == b'?' then in_options else in_version;
  current = n;
}

module _ (split : Bytes → Bytes → List Bytes) (unset : Version) where
  -- The version and its line end.
  pub version_line :
      (before ver rest : Bytes) (v : Version) (m : Message)
      → m.raw ≡ before ++ (ver ++ (line_end ++ rest))
      → m.current ≡ length before
      → AtVersion m
      → IsFresh m
      → 0 < length ver
      → All IsQueryByte ver
      → version_of split unset ver ≡ ok v
      → parse_loop split unset true (ver ++ (line_end ++ rest)) (length before) m
        ≡ parse_loop split unset true rest
            (length before + length ver + 2)
            (with_version m v (length before + length ver + 2))
  version_line before ver rest v m raw at stage (flag, c) full plain reads =
      let n = length before + length ver in
      let m1 : Message = record m { ver = v; stage = in_header; current = n + 1 } in
      skip split unset true ver _ (length before) m (query-Passes split unset ver m stage plain)
      ∙ step_going split unset true _ b'\r' n m m1 (
          version_read split unset n ver v m stage (omega arith)
            (rw (raw, at) (slice-append before ver (line_end ++ rest) _ _ refl (omega arith)))
            reads)
      ∙ step_going split unset true rest b'\n' (n + 1) m1 (with_version m v (n + 2)) (
          feed_read split unset (n + 1) m1 refl flag c
          ∙ ap (λ i. going (with_version m v i)) (omega arith))
      ∙ ap (λ i. parse_loop split unset true rest i (with_version m v (n + 2))) (omega arith)

  -- The word and the path, with the space or the question mark behind them.
  pub path_line :
      (word path rest : Bytes) (sep : ℕ) (m : Message)
      → m.raw ≡ word ++ (b' ' ∷ (path ++ (sep ∷ rest)))
      → m.stage ≡ in_method
      → m.current ≡ 0
      → (sep ≡ b' ') ⊎ (sep ≡ b'?')
      → 0 < length word
      → All (λ b. b ≢ b' ') word
      → 0 < length path
      → All IsPathByte path
      → parse_loop split unset true m.raw 0 m
        ≡ parse_loop split unset true rest
            (length word + length path + 2)
            (routed m word path sep (length word + length path + 2))
  path_line word path rest sep m raw stage at is_sep full plain full' plain' =
      let n = length word in
      let k = n + 1 + length path in
      let m1 : Message = record m {
        method = full_method_from_str word;
        stage = in_path;
        current = n + 1;
      } in
      ap (λ s. parse_loop split unset true s 0 m) raw
      ∙ skip split unset true word _ 0 m (method-Passes split unset word m stage plain)
      ∙ ap (λ i. parse_loop split unset true (b' ' ∷ (path ++ (sep ∷ rest))) i m) (omega arith)
      ∙ step_going split unset true _ b' ' n m m1 (
          method_read split unset n word m stage (omega arith)
            (rw (raw, at) (slice-append [] word _ 0 (n - 0) refl (omega arith))))
      ∙ skip split unset true path _ (n + 1) m1 (path-Passes split unset path m1 refl plain')
      ∙ step_going split unset true rest sep k m1 (routed m word path sep (k + 1)) (
          path_read split unset sep k path m1 refl is_sep (omega arith) (
            rw (raw ∙ sym (append_assoc word (codes " ") (path ++ (sep ∷ rest)))) (
              slice-append (word ++ codes " ") path (sep ∷ rest) _ _
                (omega (arith, length-append word (codes " "))) (omega arith))))
      ∙ ap (λ i. parse_loop split unset true rest i (routed m word path sep i)) (omega arith)

  -- The parameters, and the space behind them.
  pub query_line :
      (before query rest : Bytes) (m m' : Message)
      → m.raw ≡ before ++ (query ++ (b' ' ∷ rest))
      → m.current ≡ length before
      → m.stage ≡ in_options
      → 0 < length query
      → All IsQueryByte query
      → urlencoded m (length before) (length before + length query) add_get b'&' true ≡ ok m'
      → parse_loop split unset true (query ++ (b' ' ∷ rest)) (length before) m
        ≡ parse_loop split unset true rest
            (length before + length query + 1)
            (record m' { current = length before + length query + 1 })
  query_line before query rest m m' raw at stage full plain reads =
      let n = length before + length query in
      skip split unset true query _ (length before) m
        (query-Passes split unset query m (inr stage) plain)
      ∙ step_going split unset true rest b' ' n m (record m' { current = n + 1 })
          (query_read split unset n m m' stage (omega arith)
            (ap (λ i. urlencoded m i n add_get b'&' true) at ∙ reads))
