-- ===== src/Http/Message/Parse/RequestParts.antt =====
-- The parts of the first line of a request, and the byte behind each.
use highload_cup.Common.{
  arith, ℕ, ◌+◌, ◌-◌, ◌<◌, ◌≡◌, ◌≢◌, ◌⊎◌, inl, inr, ◌∙◌, ap, refl, true, false, List, [], ◌∷◌, ltb,
  lt→ltb, ◌==◌, if◌then◌else◌, Bytes, All, ok,
}
use highload_cup.Http.Method.{full_method_from_str}
use highload_cup.Http.Version.{Version, version_of}
use highload_cup.Http.Params.Written.{IsQueryByte}
use highload_cup.Http.Message.{
  Message, in_method, in_path, in_options, in_version, in_header, urlencoded, add_get,
}
use highload_cup.Http.Message.Parse.{
  going, token, step_in, step_method, step_path, step_options, step_version, step_header, end_line,
}
use highload_cup.Http.Message.Parse.Steps.{Passes}

-- A byte of a path.
abbrev pub IsPathByte : ℕ → Type 0
IsPathByte b = (b ≢ b' ') × (b ≢ b'?')

pub path_plain : (path : Bytes) → All IsPathByte path → All (λ b. b ≢ b'?') path
path_plain [] h = tt
path_plain (b ∷ path) (hb, h) = (hb.1, path_plain path h)

-- The stages in which a version is read.
abbrev pub AtVersion : Message → Type 0
AtVersion m = (m.stage ≡ in_version) ⊎ (m.stage ≡ in_options)

module _ (split : Bytes → Bytes → List Bytes) (unset : Version) where
  pub method-Passes :
      (w : Bytes) (m : Message)
      → m.stage ≡ in_method
      → All (λ b. b ≢ b' ') w
      → All (Passes split unset true m) w
  unfolding step_method
  method-Passes [] m e h = tt
  method-Passes (b ∷ w) m e (hb, h) = ((λ count. rw e (ground arith)), method-Passes w m e h)

  pub path-Passes :
      (w : Bytes) (m : Message)
      → m.stage ≡ in_path
      → All IsPathByte w
      → All (Passes split unset true m) w
  unfolding step_path
  path-Passes [] m e h = tt
  path-Passes (b ∷ w) m e (hb, h) = ((λ count. rw e (ground arith)), path-Passes w m e h)

  pub query-Passes :
      (w : Bytes) (m : Message)
      → AtVersion m
      → All IsQueryByte w
      → All (Passes split unset true m) w
  unfolding step_options step_version
  query-Passes [] m e h = tt
  query-Passes (b ∷ w) m (inl e) (hb, h) =
      ((λ count. rw e (ground arith)), query-Passes w m (inl e) h)
  query-Passes (b ∷ w) m (inr e) (hb, h) =
      ((λ count. rw e (ground arith)), query-Passes w m (inr e) h)

  -- The byte behind each part.
  pub method_read :
      (count : ℕ) (text : Bytes) (m : Message)
      → m.stage ≡ in_method
      → m.current < count
      → token m count ≡ text
      → step_in split unset true m.stage b' ' count m
        ≡ going
            (record m { method = full_method_from_str text; stage = in_path; current = count + 1 })
  unfolding step_method
  method_read count text m e h t = rw (e, lt→ltb 0 (count - m.current) (omega arith), t) refl

  pub path_read :
      (b count : ℕ) (text : Bytes) (m : Message)
      → m.stage ≡ in_path
      → (b ≡ b' ') ⊎ (b ≡ b'?')
      → m.current < count
      → token m count ≡ text
      → step_in split unset true m.stage b count m
        ≡ going (record m {
          path = text;
          stage = if b == b'?' then in_options else in_version;
          current = count + 1;
        })
  unfolding step_path
  path_read b count text m e (inl s) h t =
      rw (e, s, lt→ltb 0 (count - m.current) (omega arith), t) refl
  path_read b count text m e (inr s) h t =
      rw (e, s, lt→ltb 0 (count - m.current) (omega arith), t) refl

  pub query_read :
      (count : ℕ) (m m' : Message)
      → m.stage ≡ in_options
      → m.current < count
      → urlencoded m m.current count add_get b'&' true ≡ ok m'
      → step_in split unset true m.stage b' ' count m ≡ going (record m' { current = count + 1 })
  unfolding step_options step_version
  query_read count m m' e h t =
      ap (λ st. step_in split unset true st b' ' count m) e
      ∙ rw (lt→ltb 0 (count - m.current) (omega arith), t) refl

  pub version_read :
      (count : ℕ) (text : Bytes) (v : Version) (m : Message)
      → AtVersion m
      → m.current < count
      → token m count ≡ text
      → version_of split unset text ≡ ok v
      → step_in split unset true m.stage b'\r' count m
        ≡ going (record m { ver = v; stage = in_header; current = count + 1 })
  unfolding step_options step_version
  version_read count text v m (inl e) h t reads =
      let behind : ltb count m.current ≡ false = ground arith in
      rw (e, behind, lt→ltb 0 (count - m.current) (omega arith), t, reads) refl
  version_read count text v m (inr e) h t reads =
      let behind : ltb count m.current ≡ false = ground arith in
      rw (e, behind, lt→ltb 0 (count - m.current) (omega arith), t, reads) refl

  pub feed_read :
      (count : ℕ) (m : Message)
      → m.stage ≡ in_header
      → m.flag_2n ≡ false
      → m.cvalue ≡ 0
      → step_in split unset true m.stage b'\n' count m
        ≡ going (record m { flag_2n = true; current = count + 1 })
  unfolding step_header end_line
  feed_read count m e f c =
      let short : ltb (m.current + 2) 0 ≡ false = ground arith in rw (e, f, c, short) refl
