-- ===== src/Http/Message/Raw/Forms.antt =====
-- The text of a request with the fields of a form, as `to_raw` writes it.
use highload_cup.Common.{
  arith, ◌<◌, ◌≡◌, ◌≢◌, ◌∙◌, ap, refl, sym, Bool, true, false, List, [], ◌∷◌, ◌++◌, ltb, lt→ltb,
  Bytes, codes, length, append_assoc, All, ok,
}
use highload_cup.Common.Text.{to_string}
use highload_cup.Http.Method.{method_to_str}
use highload_cup.Http.Version.{to_str}
use highload_cup.Http.Params.{query_loop, query_string}
use highload_cup.Http.Params.Written.{Param}
use highload_cup.Http.Message.{Message, Table, Field, val}
use highload_cup.Http.Message.Raw.{line_end, header_loop, post_loop, to_raw}
use highload_cup.Http.Message.Raw.Lines.{length_line, header_loop-length}
use highload_cup.Http.Message.Raw.Requests.{KeepsLength, target, path_part-target}

-- The names and the values of the fields.
abbrev pub HasValues : Table Field → List Param → Type 0
HasValues [] [] = Unit
HasValues ((key, field) ∷ fields) ((k, v) ∷ qs) =
    (key ≡ k) × (val field ≡ ok v) × HasValues fields qs
HasValues _ _ = ⊥

-- The loop over the fields writes what the loop over the parameters does.
post_loop-query_loop :
    (flag : Bool) (fields : Table Field) (qs : List Param) (res : Bytes)
    → HasValues fields qs
    → post_loop flag fields res ≡ ok (query_loop flag qs res)
unfolding post_loop query_loop
post_loop-query_loop flag [] [] res h = refl
post_loop-query_loop flag [] (q ∷ qs) res h = elim h [ ]
post_loop-query_loop flag (f ∷ fields) [] res h = elim h [ ]
post_loop-query_loop flag ((key, field) ∷ fields) ((k, v) ∷ qs) res (e, has, h) =
    rw (e, has) (post_loop-query_loop true fields qs _ h)

has_fields :
    (fields : Table Field) (q : Param) (qs : List Param)
    → HasValues fields (q ∷ qs)
    → 0 < length fields
has_fields [] q qs h = absurd h
has_fields (f ∷ fields) q qs h = omega arith

-- A form by its parts.
abbrev pub form_text : Message → Bytes → Table Bytes → Table Bytes → Bytes → Bytes
form_text m ver ps hs body =
    method_to_str m.method
    ++ (b' '
        ∷ (target m.path ps
            ++ (b' '
                ∷ (ver
                    ++ (line_end
                        ++ (header_loop (hs ++ length_line body) ++ (line_end ++ body)))))))

form_shape :
    (m : Message) (ver : Bytes) (ps hs : Table Bytes) (body : Bytes)
    → (method_to_str m.method
          ++ (codes " " ++ (target m.path ps ++ (codes " " ++ (ver ++ line_end)))))
        ++ (header_loop hs
            ++ ((codes "Content-Length: " ++ to_string (length body))
                ++ (codes "\r\n\r\n" ++ body)))
      ≡ form_text m ver ps hs body
form_shape m ver ps hs body =
    let first =
      method_to_str m.method
      ++ (codes " " ++ (target m.path ps ++ (codes " " ++ (ver ++ line_end)))) in
    ap (λ t. first ++ (header_loop hs ++ t))
      (append_assoc (codes "Content-Length: ") (to_string (length body)) (codes "\r\n\r\n" ++ body))
    ∙ ap (λ t. first ++ t) (sym (header_loop-length hs body))
    ∙ simp append_assoc

module _ (order : (V : Type 0) → Table V → Table V) (expires : Bytes) where
  pub to_raw-form :
      (m : Message) (ver : Bytes) (ps : Table Bytes) (q : Param) (qs : List Param)
      (include_data : Bool)
      → m.cookies ≡ []
      → HasValues (order Field m.posts) (q ∷ qs)
      → KeepsLength order
      → order Bytes m.gets ≡ ps
      → All (λ b. b ≢ b'?') m.path
      → to_str m.ver ≡ ok ver
      → to_raw order expires true include_data m
        ≡ ok (form_text m ver ps (order Bytes m.headers) (query_string (q ∷ qs)))
  unfolding to_raw query_string
  to_raw-form m ver ps q qs include_data bare values keeps e h prints =
      let size : length ps ≡ length m.gets = ap length (sym e) ∙ keeps Bytes m.gets in
      let full : ltb 0 (length m.posts) ≡ true =
        lt→ltb 0 (length m.posts)
          (omega (arith, has_fields (order Field m.posts) q qs values, keeps Field m.posts)) in
      rw
        (
          prints,
          bare,
          post_loop-query_loop false (order Field m.posts) (q ∷ qs) [] values,
          full,
          path_part-target order expires m ps e size h,
        )
        (ap (λ t. ok t) (form_shape m ver ps (order Bytes m.headers) (query_string (q ∷ qs))))
