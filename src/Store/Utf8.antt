-- ===== src/Store/Utf8.antt =====
-- `util::length_utf8` (include/util.cpp). `mblen` is that of a UTF-8 locale (RFC 3629).
pub mod Counts
pub mod Hangs
use highload_cup.Common.{
  ℕ, zero, suc, ◌+◌, ◌-◌, ◌%◌, ◌^◌, Bool, true, false, ◌&&◌, [], ◌∷◌, Option, none, some, ltb, leb,
  ◌==◌, if◌then◌else◌, Bytes, length, drop,
}

abbrev within : ℕ → ℕ → ℕ → Bool
within lo hi b = leb lo b && leb b hi

-- So many continuation bytes.
unfoldable pub continued : ℕ → Bytes → Bool
continued zero s = true
continued (suc n) [] = false
continued (suc n) (b ∷ s) = within 0x80 0xbf b && continued n s

-- A leading byte fixes how many bytes follow, and the range of the first of them.
unfoldable pub sequence : ℕ → ℕ → ℕ → Bytes → Option ℕ
unfolding continued
sequence n lo hi [] = none
sequence n lo hi (b ∷ s) = if within lo hi b && continued (n - 2) s then some n else none

-- The length of the character at the start of a text; `none` is -1.
unfoldable pub mblen : Bytes → Option ℕ
unfolding sequence
mblen [] = some 0
mblen (b ∷ s) =
    if b == 0
    then some 0
    else if leb b 0x7f
    then some 1
    else if within 0xc2 0xdf b
    then sequence 2 0x80 0xbf s
    else if b == 0xe0
    then sequence 3 0xa0 0xbf s
    else if b == 0xed
    then sequence 3 0x80 0x9f s
    else if within 0xe1 0xef b
    then sequence 3 0x80 0xbf s
    else if b == 0xf0
    then sequence 4 0x90 0xbf s
    else if within 0xf1 0xf3 b
    then sequence 4 0x80 0xbf s
    else if b == 0xf4
    then sequence 4 0x80 0x8f s
    else none

-- `offset += mblen(...)`, in `size_t`.
abbrev pub advance : ℕ → Option ℕ → ℕ
advance offset none = (offset + (2 ^ 64 - 1)) % 2 ^ 64
advance offset (some n) = (offset + n) % 2 ^ 64

unfoldable pub utf8_loop : ℕ → Bytes → ℕ → ℕ → Option ℕ
unfolding mblen
utf8_loop zero s offset count = none
utf8_loop (suc fuel) s offset count =
    let rest = utf8_loop fuel s (advance offset (mblen (drop offset s))) (count + 1) in
    if ltb offset (length s) then rest else some count

-- `none`: the loop has not ended in one round more than there are bytes.
unfoldable pub length_utf8 : Bytes → Option ℕ
unfolding utf8_loop
length_utf8 s = utf8_loop (suc (length s)) s 0 0

-- `util::offset_utf8`.
pub offset_loop : ℕ → Bytes → ℕ → ℕ → ℕ → Option ℕ
unfolding mblen
offset_loop zero s symbols offset length_seen = none
offset_loop (suc fuel) s symbols offset length_seen =
    let rest =
      offset_loop fuel s symbols (advance offset (mblen (drop offset s))) (length_seen + 1) in
    if ltb offset (length s) && ltb length_seen symbols then rest else some offset

unfoldable pub offset_utf8 : Bytes → ℕ → Option ℕ
unfolding offset_loop
offset_utf8 s symbols = offset_loop (suc (length s)) s symbols 0 0
