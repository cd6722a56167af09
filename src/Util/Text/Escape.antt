-- ===== src/Util/Text/Escape.antt =====
-- What `escape_html` leaves in a text.
use highload_cup.Common.{arith, ℕ, ◌≤◌, ◌≢◌, [], ◌∷◌, ◌++◌, Bytes, All, All-append}
use highload_cup.Util.Text.{escape_byte, escape_loop, escape_html}

-- Not a byte that ends a text or an attribute of HTML, and no control byte.
abbrev pub IsHarmless : ℕ → Type 0
IsHarmless b = (b ≢ b'<') × (b ≢ b'>') × (b ≢ b'"') × (0x20 ≤ b) × (b ≢ 0x7f)

escape_byte-IsHarmless : (ch : ℕ) → All IsHarmless (escape_byte ch)
unfolding escape_byte
escape_byte-IsHarmless ch = ground arith

escape_loop-IsHarmless :
    (str res : Bytes) → All IsHarmless res → All IsHarmless (escape_loop str res)
unfolding escape_loop
escape_loop-IsHarmless [] res h = h
escape_loop-IsHarmless (ch ∷ str) res h =
    escape_loop-IsHarmless str (res ++ escape_byte ch)
      (All-append IsHarmless res (escape_byte ch) h (escape_byte-IsHarmless ch))

-- No text that `escape_html` returns has an angle bracket, a quotation mark or a control byte.
pub escape_html-IsHarmless : (str : Bytes) → All IsHarmless (escape_html str)
unfolding escape_html
escape_html-IsHarmless str = escape_loop-IsHarmless str [] tt
