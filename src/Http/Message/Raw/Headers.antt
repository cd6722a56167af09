-- ===== src/Http/Message/Raw/Headers.antt =====
-- The header lines that `to_raw` adds to a reply can be read as they were written.
use highload_cup.Common.{
  arith, ◌^◌, ◌<◌, ◌≡◌, refl, Bool, true, false, not, ◌&&◌, ◌==◌, [], ◌∷◌, ◌++◌, map, some, Bytes,
  codes, bytes_eq, length, All, All-append,
}
use highload_cup.Common.Text.{to_string}
use highload_cup.Util.Numbers.Decimal.{IsDigit}
use highload_cup.Util.Numbers.Printed.{to_string_decimal}
use highload_cup.Http.Status.{Status, status_to_str}
use highload_cup.Http.Status.Words.{avoids}
use highload_cup.Http.Message.{Table, find_key}
use highload_cup.Http.Message.Raw.Lines.{fixed_lines, length_line, lines_of}
use highload_cup.Http.Message.Keys.{find_key-add_all}
use highload_cup.Http.Message.Parse.{tolower}
use highload_cup.Http.Message.Parse.Lines.{IsNameByte, IsValueByte}
use highload_cup.Http.Message.Parse.Table.{IsHeader, add_all}

pub avoids-IsValueByte : (s : Bytes) → avoids b'\n' b'\r' s ≡ true → All IsValueByte s
avoids-IsValueByte [] h = tt
avoids-IsValueByte (b ∷ s) h = (ground arith, avoids-IsValueByte s (ground arith))

pub digits-IsValueByte : (s : Bytes) → All IsDigit s → All IsValueByte s
digits-IsValueByte [] h = tt
digits-IsValueByte (b ∷ s) (hb, h) = ((omega arith, omega arith), digits-IsValueByte s h)

-- A name that has no colon and no line end.
abbrev pub is_name : Bytes → Bool
is_name [] = true
is_name (b ∷ s) = not (b == b':') && (not (b == b'\n') && (not (b == b'\r') && is_name s))

pub name_plain : (s : Bytes) → is_name s ≡ true → All IsNameByte s
name_plain [] h = tt
name_plain (b ∷ s) h = (ground arith, name_plain s (ground arith))

-- The lines that `to_raw` adds are read as they were written.
pub length_line-IsHeader : (body : Bytes) → length body < 2 ^ 31 → All IsHeader (length_line body)
length_line-IsHeader body h = (
  (
    cc,
    name_plain (codes "Content-Length") refl,
    digits-IsValueByte (to_string (length body)) (to_string_decimal (length body) h).0,
    refl,
  ),
  tt,
)

pub lines_of-IsHeader :
    (hs : Table Bytes) (body : Bytes)
    → length body < 2 ^ 31
    → All IsHeader hs
    → All IsHeader (lines_of hs body)
lines_of-IsHeader hs body h ok_hs = (
  (cc, name_plain (codes "Server") refl, avoids-IsValueByte (codes "SP (0.1)") refl, refl),
  (
    (cc, name_plain (codes "Connection") refl, avoids-IsValueByte (codes "keep-alive") refl, refl),
    All-append IsHeader hs (length_line body) ok_hs (length_line-IsHeader body h),
  ),
)

-- The name of no line is that of the length.
abbrev pub IsOther : Bytes × Bytes → Type 0
IsOther (key, v) = bytes_eq (map tolower key) (codes "content-length") ≡ false

-- What the reader has of the lines of a reply.
abbrev pub read_table : Status → Table Bytes → Bytes → Table Bytes
read_table status hs body = add_all ((codes "Status", status_to_str status) ∷ lines_of hs body) []

pub read_table-length :
    (status : Status) (hs : Table Bytes) (body : Bytes)
    → All IsOther hs
    → find_key (codes "content-length") (read_table status hs body) ≡ some (to_string (length body))
read_table-length status hs body others =
    find_key-add_all (codes "content-length") (codes "Content-Length") (to_string (length body))
      ((codes "Status", status_to_str status) ∷ (fixed_lines ++ hs)) [] refl refl
      (refl, (refl, (refl, others)))
