-- ===== src/Examples/Helpers.antt =====
-- Texts, log levels, connections and the files of the loader.
use highload_cup.Common.{
  arith, ℕ, ◌+◌, ◌<◌, ◌≡◌, ◌≢◌, refl, Bool, true, not, ◌&&◌, ◌==◌, List, [], ◌∷◌, ◌++◌, map, none,
  some, Bytes, codes, get_elem?, All,
}
use highload_cup.Util.Text.{trim, blanks, escape_html}
use highload_cup.Util.Text.Trim.{trim-between}
use highload_cup.Util.Text.Escape.{IsHarmless, escape_html-IsHarmless}
use highload_cup.Store.Utf8.{mblen, length_utf8, offset_utf8, utf8_loop}
use highload_cup.Store.Utf8.Counts.{
  IsChar, concat, ascii-IsChar, two_bytes-IsChar, length_utf8-concat, offset_utf8-concat,
}
use highload_cup.Store.Utf8.Hangs.{utf8_loop_hangs}
use highload_cup.Server.{threads_amount, give_all}
use highload_cup.Server.Turns.{give_all_fair}
use highload_cup.Store.State.{Base, construct}
use highload_cup.Store.Instances.{list_map, known_libs, new_year}
use highload_cup.Server.Loader.{objects, load_file}
use highload_cup.Server.Loader.Files.{IsWhole, inserted, load_file-listing}
use highload_cup.Server.Loader.Scan.{IsPlain, ArePlain, listing, object, objects-listing}

trimmed_text : trim (codes " \t" ++ (codes "a b" ++ codes "\n")) blanks ≡ codes "a b"
trimmed_text =
    trim-between blanks (codes " \t") (codes " ") (codes "\n") b'a' b'b' (refl, (refl, tt))
      (refl, tt) refl refl

escape_html-IsHarmless_example : All IsHarmless (escape_html (codes "<a href=\"x\">&"))
escape_html-IsHarmless_example = escape_html-IsHarmless (codes "<a href=\"x\">&")

-- Two letters, one of two bytes.
abbrev letters : List Bytes
letters = codes "a" ∷ (0xd0 ∷ 0xb0 ∷ []) ∷ []

letters-IsChar : All IsChar letters
letters-IsChar = (
  ascii-IsChar b'a' (omega arith) (omega arith),
  (two_bytes-IsChar 0xd0 0xb0 (omega arith) (omega arith) (omega arith) (omega arith), tt),
)

length_utf8-concat_example : length_utf8 (concat letters) ≡ some 2
length_utf8-concat_example = length_utf8-concat letters letters-IsChar (omega arith)

offset_utf8-concat_example : offset_utf8 (concat letters ++ codes "zz") 2 ≡ some 3
offset_utf8-concat_example = offset_utf8-concat letters (codes "zz") letters-IsChar (omega arith)

-- A continuation byte with no byte before it.
mblen_bad : mblen (0x80 ∷ codes "b") ≡ none
unfolding mblen
mblen_bad = refl

utf8_loop_hangs_example :
    (utf8_loop 100 (b'a' ∷ 0x80 ∷ codes "b") 0 0 ≡ none)
    × (utf8_loop 100 (b'a' ∷ 0x80 ∷ codes "b") 1 0 ≡ none)
utf8_loop_hangs_example =
    utf8_loop_hangs b'a' 0x80 (codes "b") 100 0 (omega arith) (omega arith) mblen_bad

abbrev sockets : List ℕ
sockets = 11 ∷ 12 ∷ 13 ∷ 14 ∷ []

give_all_fair_example :
    (j : ℕ) × (s : ℕ) × (j < 3)
    × (get_elem? sockets (1 + j) ≡ some s)
    × (get_elem? (give_all threads_amount 2 sockets).0 (1 + j) ≡ some (0, s))
give_all_fair_example = give_all_fair sockets 2 1 0 (omega arith) (omega arith) (omega arith)

abbrev users_file : List (Bytes × Bytes)
users_file = (codes "\"users\": [", codes "\"id\": 1") ∷ (codes ", ", codes "\"id\": 2") ∷ []

abbrev no_braces : Bytes → Bool
no_braces [] = true
no_braces (b ∷ s) = not (b == b'{') && (not (b == b'}') && no_braces s)

no_braces_sound : (s : Bytes) → no_braces s ≡ true → All IsPlain s
no_braces_sound [] h = tt
no_braces_sound (b ∷ s) h = (ground arith, no_braces_sound s (ground arith))

users_file-ArePlain : ArePlain users_file
users_file-ArePlain = (
  (no_braces_sound (codes "\"users\": [") refl, no_braces_sound (codes "\"id\": 1") refl),
  ((no_braces_sound (codes ", ") refl, no_braces_sound (codes "\"id\": 2") refl), tt),
)

users_found : objects (b'{' ∷ listing users_file (codes "]}")) ≡ map object users_file
users_found =
    objects-listing users_file (codes "]}") users_file-ArePlain (omega arith, (omega arith, tt))

abbrev no_zeros : Bytes → Bool
no_zeros [] = true
no_zeros (b ∷ s) = not (b == 0) && no_zeros s

no_zeros_sound : (s : Bytes) → no_zeros s ≡ true → IsWhole s
no_zeros_sound [] h = tt
no_zeros_sound (b ∷ s) h = (ground arith, no_zeros_sound s (ground arith))

abbrev no_lines : Bytes → Bool
no_lines [] = true
no_lines (b ∷ s) = not (b == b'_') && no_lines s

no_lines_sound : (s : Bytes) → no_lines s ≡ true → All (λ c. c ≢ b'_') s
no_lines_sound [] h = tt
no_lines_sound (b ∷ s) h = (ground arith, no_lines_sound s (ground arith))

abbrev first_base : Base list_map
first_base = construct list_map known_libs new_year

load_file-listing_example :
    load_file known_libs first_base
      (codes "users" ++ b'_' ∷ codes "1.json", some (b'{' ∷ listing users_file (codes "]}")))
    ≡ inserted known_libs first_base (codes "users") (map object users_file)
load_file-listing_example =
    load_file-listing known_libs first_base (codes "users") (codes "1.json") users_file (codes "]}")
      (no_lines_sound (codes "1.json") refl) users_file-ArePlain
      (no_zeros_sound (codes "\"id\": 1") refl, (no_zeros_sound (codes "\"id\": 2") refl, tt))
      (omega arith, (omega arith, tt))
