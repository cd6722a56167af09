-- ===== src/Http/Message/Raw/Lines.antt =====
-- The lines of a reply that `to_raw` writes.
use highload_cup.Common.{
  ◌≡◌, ◌∙◌, ap, refl, sym, true, false, [], ◌∷◌, ◌++◌, Bytes, codes, length, append_assoc, ok,
}
use highload_cup.Common.Text.{to_string}
use highload_cup.Http.Status.{Status, is_204, status_to_str}
use highload_cup.Http.Version.{to_str}
use highload_cup.Http.Message.{Message, Table}
use highload_cup.Http.Message.Raw.{line_end, header_loop, header_server, header_connection, to_raw}
use highload_cup.Http.Message.Parse.Table.{header_loop-cons}

-- The lines that every reply has, in front of those of the object and behind them.
abbrev pub fixed_lines : Table Bytes
fixed_lines = (codes "Server", codes "SP (0.1)") ∷ (codes "Connection", codes "keep-alive") ∷ []

abbrev pub length_line : Bytes → Table Bytes
length_line body = (codes "Content-Length", to_string (length body)) ∷ []

abbrev pub lines_of : Table Bytes → Bytes → Table Bytes
lines_of hs body = fixed_lines ++ (hs ++ length_line body)

-- The text of a reply by its lines.
abbrev pub reply_text : Bytes → Status → Table Bytes → Bytes → Bytes
reply_text ver status hs body =
    ver
    ++ (codes " "
        ++ (status_to_str status
            ++ (line_end
                ++ (codes "Status"
                    ++ (codes ": "
                        ++ (status_to_str status
                            ++ (line_end
                                ++ (header_loop (lines_of hs body) ++ (line_end ++ body)))))))))

header_loop-append :
    (hs gs : Table Bytes) (rest : Bytes)
    → header_loop (hs ++ gs) ++ rest ≡ header_loop hs ++ (header_loop gs ++ rest)
unfolding header_loop
header_loop-append [] gs rest = refl
header_loop-append ((key, v) ∷ hs) gs rest =
    header_loop-cons key v rest (hs ++ gs)
    ∙ ap (λ t. key ++ (codes ": " ++ (v ++ (line_end ++ t)))) (header_loop-append hs gs rest)
    ∙ sym (header_loop-cons key v (header_loop gs ++ rest) hs)

header_loop-fixed :
    (rest : Bytes) → header_loop fixed_lines ++ rest ≡ header_server ++ (header_connection ++ rest)
unfolding header_loop
header_loop-fixed rest = refl

-- The lines of the object and that of the length, with the empty line and the body.
pub header_loop-length :
    (hs : Table Bytes) (body : Bytes)
    → header_loop (hs ++ length_line body) ++ (line_end ++ body)
      ≡ header_loop hs
        ++ (codes "Content-Length: " ++ (to_string (length body) ++ (codes "\r\n\r\n" ++ body)))
unfolding header_loop
header_loop-length hs body =
    header_loop-append hs (length_line body) (line_end ++ body)
    ∙ ap (λ t. header_loop hs ++ t)
        (header_loop-cons (codes "Content-Length") (to_string (length body)) (line_end ++ body) [])

-- All lines behind that of the status.
lines_text :
    (hs : Table Bytes) (body : Bytes)
    → header_loop (lines_of hs body) ++ (line_end ++ body)
      ≡ header_server
        ++ (header_connection
            ++ (header_loop hs
                ++ (codes "Content-Length: "
                    ++ (to_string (length body) ++ (codes "\r\n\r\n" ++ body)))))
lines_text hs body =
    header_loop-append fixed_lines (hs ++ length_line body) (line_end ++ body)
    ∙ ap (λ t. header_loop fixed_lines ++ t) (header_loop-length hs body)
    ∙ header_loop-fixed _

module _ (order : (V : Type 0) → Table V → Table V) (expires : Bytes) where
  pub to_raw-lines :
      (m : Message) (ver : Bytes)
      → m.cookies ≡ []
      → is_204 m.status ≡ false
      → to_str m.ver ≡ ok ver
      → to_raw order expires false true m
        ≡ ok (reply_text ver m.status (order Bytes m.headers) m.body)
  unfolding to_raw
  to_raw-lines m ver empty has_length prints =
      rw (prints, has_length, empty)
        (ap (λ t. ok t)
          (append_assoc ver _ _
            ∙ ap (λ t. ver ++ (codes " " ++ t))
                (append_assoc (status_to_str m.status) _ _
                  ∙ ap (λ t. status_to_str m.status ++ (line_end ++ (codes "Status: " ++ t)))
                      (append_assoc (status_to_str m.status) _ _
                        ∙ ap (λ t. status_to_str m.status ++ (line_end ++ t))
                            (sym (lines_text (order Bytes m.headers) m.body))))))
