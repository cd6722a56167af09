-- ===== src/Http/Message/Raw/Requests.antt =====
-- The text of a request without cookies and without fields of a form, as `to_raw` writes it.
use highload_cup.Common.{
  arith, ℕ, ◌+◌, ◌≡◌, ◌≢◌, ◌∙◌, ap, refl, sym, Bool, true, false, [], ◌∷◌, ◌++◌, none, ltb, lt→ltb,
  Bytes, codes, length, append_assoc, All, ok,
}
use highload_cup.Util.Text.{find_text}
use highload_cup.Http.Method.{method_to_str}
use highload_cup.Http.Version.{to_str}
use highload_cup.Http.Params.{query_string}
use highload_cup.Http.Params.Written.{query_string_from}
use highload_cup.Http.Message.{Message, Table, Field}
use highload_cup.Http.Message.Raw.{line_end, header_loop, path_part, to_raw}

no_mark : (path : Bytes) (i : ℕ) → All (λ b. b ≢ b'?') path → find_text (codes "?") path i ≡ none
unfolding find_text
no_mark [] i h = refl
no_mark (b ∷ path) i (hb, h) = ground (arith, no_mark path (i + 1))

-- The path, and the query behind it.
abbrev pub target : Bytes → Table Bytes → Bytes
target path [] = path
target path (p ∷ ps) = path ++ (b'?' ∷ query_string (p ∷ ps))

-- A request by its parts.
abbrev pub request_text : Message → Bytes → Table Bytes → Table Bytes → Bytes
request_text m ver ps hs =
    method_to_str m.method
    ++ (b' '
        ∷ (target m.path ps
            ++ (b' ' ∷ (ver ++ (line_end ++ (header_loop hs ++ codes "\r\n\r\n"))))))

-- Going over a map gives each entry once.
abbrev pub KeepsLength : ((V : Type 0) → Table V → Table V) → Type 1
KeepsLength order = (V : Type 0) (t : Table V) → length (order V t) ≡ length t

nil_of_length : {V : Type 0} (t : Table V) → length t ≡ 0 → t ≡ []
nil_of_length [] h = refl
nil_of_length (p ∷ t) h = absurd (omega arith)

module _ (order : (V : Type 0) → Table V → Table V) (expires : Bytes) where
  pub path_part-target :
      (m : Message) (ps : Table Bytes)
      → order Bytes m.gets ≡ ps
      → length ps ≡ length m.gets
      → All (λ b. b ≢ b'?') m.path
      → path_part order expires m ≡ target m.path ps
  unfolding path_part
  path_part-target m [] e size h =
      let empty : ltb 0 (length m.gets) ≡ false = ground arith in rw empty refl
  path_part-target m (p ∷ ps) e size h =
      let full : ltb 0 (length m.gets) ≡ true = lt→ltb 0 (length m.gets) (omega arith) in
      rw (full, no_mark m.path 0 h, e)
        (query_string_from p ps (m.path ++ codes "?")
          ∙ append_assoc m.path (codes "?") (query_string (p ∷ ps)))

  pub to_raw-request :
      (m : Message) (ver : Bytes) (ps : Table Bytes) (include_data : Bool)
      → m.cookies ≡ []
      → m.posts ≡ []
      → KeepsLength order
      → order Bytes m.gets ≡ ps
      → All (λ b. b ≢ b'?') m.path
      → to_str m.ver ≡ ok ver
      → to_raw order expires true include_data m
        ≡ ok (request_text m ver ps (order Bytes m.headers))
  unfolding to_raw
  to_raw-request m ver ps include_data bare form keeps e h prints =
      let size : length ps ≡ length m.gets = ap length (sym e) ∙ keeps Bytes m.gets in
      rw
        (
          prints,
          bare,
          form,
          nil_of_length (order Field []) (keeps Field []),
          path_part-target m ps e size h,
        )
        (ap (λ t. ok t) (simp append_assoc))
