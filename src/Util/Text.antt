-- ===== src/Util/Text.antt =====
-- `util::trim`, `util::escape_html`, `util::ins` and `util::remove_end_slash` (include/util.cpp).
pub mod Trim
pub mod Escape
use highload_cup.Common.{
  ℕ, suc, ◌+◌, ◌-◌, Bool, true, false, ◌&&◌, ◌||◌, [], ◌∷◌, ◌++◌, Option, none, some, leb, ◌==◌,
  if◌then◌else◌, Bytes, codes, length, take, drop,
}

-- The byte is one of a set.
abbrev pub is_in : Bytes → ℕ → Bool
is_in [] b = false
is_in (c ∷ set) b = if c == b then true else is_in set b

-- `std::string::find_first_not_of`, counted from an index; `none` is `npos`.
abbrev pub first_not_of : Bytes → Bytes → ℕ → Option ℕ
first_not_of set [] i = none
first_not_of set (b ∷ s) i = if is_in set b then first_not_of set s (i + 1) else some i

-- `std::string::find_last_not_of`, with the last place that has been found.
abbrev pub last_not_of : Bytes → Bytes → ℕ → Option ℕ → Option ℕ
last_not_of set [] i found = found
last_not_of set (b ∷ s) i found = last_not_of set s (i + 1) (if is_in set b then found else some i)

-- `temp.erase(0, n)`, where `n` may be `npos`.
abbrev pub erase_front : Option ℕ → Bytes → Bytes
erase_front none s = []
erase_front (some n) s = drop n s

-- `temp.erase(n + 1)`; `npos + 1` is 0.
abbrev pub erase_behind : Option ℕ → Bytes → Bytes
erase_behind none s = []
erase_behind (some n) s = take (n + 1) s

-- The default argument of `trim`.
abbrev pub blanks : Bytes
blanks = b' ' ∷ b'\t' ∷ b'\n' ∷ b'\r' ∷ 0x0c ∷ 0x0b ∷ []

unfoldable pub trim : Bytes → Bytes → Bytes
trim line t =
    let temp = erase_front (first_not_of t line 0) line in
    erase_behind (last_not_of t temp 0 none) temp

-- What `escape_html` appends for one byte. The byte of a `char` from 0x80 on is above 0x20.
unfoldable pub escape_byte : ℕ → Bytes
escape_byte ch =
    if ch == b'&'
    then codes "&amp;"
    else if ch == b'<'
    then codes "&lt;"
    else if ch == b'"'
    then codes "&quot;"
    else if ch == b'>'
    then codes "&gt;"
    else if leb ch 0x20 || ch == 0x7f
    then codes " "
    else ch ∷ []

pub escape_loop : Bytes → Bytes → Bytes
escape_loop [] res = res
escape_loop (ch ∷ str) res = escape_loop str (res ++ escape_byte ch)

unfoldable pub escape_html : Bytes → Bytes
unfolding escape_loop escape_byte
escape_html str = escape_loop str []

-- `line.find("%s")`, counted from an index.
pub find_mark : Bytes → ℕ → Option ℕ
find_mark [] i = none
find_mark (b ∷ []) i = none
find_mark (b ∷ c ∷ s) i = if b == b'%' && c == b's' then some i else find_mark (c ∷ s) (i + 1)

-- `line.replace(pos, 2, arg)`, where there is such a place.
unfoldable pub ins : Bytes → Bytes → Bytes
unfolding find_mark
ins line arg = elim (find_mark line 0) [
  | none ↦ line
  | some pos ↦ take pos line ++ (arg ++ drop (pos + 2) line)
]

-- `std::string::find` of a text, counted from an index; `none` is `npos`.
abbrev pub starts_with : Bytes → Bytes → Bool
starts_with [] s = true
starts_with (c ∷ text) [] = false
starts_with (c ∷ text) (b ∷ s) = (c == b) && starts_with text s

unfoldable pub find_text : Bytes → Bytes → ℕ → Option ℕ
find_text text [] i = if starts_with text [] then some i else none
find_text text (b ∷ s) i = if starts_with text (b ∷ s) then some i else find_text text s (i + 1)

unfoldable pub remove_end_slash : Bytes → Bytes
remove_end_slash [] = []
remove_end_slash (b ∷ []) = if b == b'/' then [] else b ∷ []
remove_end_slash (b ∷ c ∷ path) = b ∷ remove_end_slash (c ∷ path)
