-- ===== src/Http/Quote.antt =====
-- `recode_char`, `unquote` and `quote` (include/http_proto.cpp). A `char` from 0x80 on is negative
-- in the source; here a byte from 0x80 on lies above every bound that the tests name, as there it
-- lies below, so both fail the same tests.
pub mod RoundTrip
use Prim.Native.Nat.{bit_or}
use highload_cup.Common.{
  ℕ, ◌+◌, ◌-◌, ◌*◌, ◌/◌, ◌%◌, Bool, ◌&&◌, ◌||◌, [], ◌∷◌, ◌++◌, leb, ◌==◌, if◌then◌else◌, Bytes,
  codes, Option, none, some, get_elem?,
}

abbrev pub within : ℕ → ℕ → ℕ → Bool
within lo hi ch = leb lo ch && leb ch hi

pub recode_char : ℕ → ℕ
recode_char ch =
    if within b'0' b'9' ch
    then ch - b'0'
    else if within b'a' b'f' ch
    then ch - b'a' + 10
    else if within b'A' b'F' ch
    then ch - b'A' + 10
    else 0

-- The variables of the loop of `unquote`.
pub record Decoder : Type 0 where
  pub nbyte : ℕ
  pub ch_temp : ℕ
  pub res_temp : Bytes

abbrev push : Decoder → ℕ → Decoder
push d c = record d { res_temp = d.res_temp ++ c ∷ [] }

pub unquote_step : Decoder → ℕ → Decoder
unfolding recode_char
unquote_step d ch =
    if ch == b'%'
    then record d { nbyte = 1 }
    else if d.nbyte == 1
    then record d { ch_temp = recode_char ch * 16 % 256; nbyte = 2 }
    else if d.nbyte == 2
    then (let c = bit_or d.ch_temp (recode_char ch) in
        record d { ch_temp = c; res_temp = d.res_temp ++ c ∷ []; nbyte = 0 })
    else if ch == b'+'
    then push d b' '
    else push d ch

pub unquote_loop : Decoder → Bytes → Decoder
unquote_loop d [] = d
unquote_loop d (ch ∷ data_ptr) = unquote_loop (unquote_step d ch) data_ptr

abbrev pub start : Decoder
start = record { nbyte = 0; ch_temp = 0; res_temp = [] }

unfoldable pub unquote : Bytes → Bytes
unfolding unquote_loop unquote_step
unquote text = (unquote_loop start text).res_temp

abbrev pub table : Bytes
table = codes "0123456789ABCDEF"

abbrev pub hex : ℕ → ℕ
hex d = elim (get_elem? table d) [ none ↦ 0 | some c ↦ c ]

abbrev pub unreserved : ℕ → Bool
unreserved ch =
    within b'0' b'9' ch
    || within b'a' b'z' ch
    || within b'A' b'Z' ch
    || ch == b'-'
    || ch == b'_'
    || ch == b'.'
    || ch == b'~'

-- What `quote` appends for one byte.
pub quote_byte : ℕ → Bytes
quote_byte ch =
    if unreserved ch
    then ch ∷ []
    else if ch == b' '
    then b'+' ∷ []
    else b'%' ∷ hex (ch / 16) ∷ hex (ch % 16) ∷ []

pub quote_loop : Bytes → Bytes → Bytes
quote_loop [] res = res
quote_loop (ch ∷ str) res = quote_loop str (res ++ quote_byte ch)

unfoldable pub quote : Bytes → Bytes
unfolding quote_loop quote_byte
quote str = quote_loop str []
