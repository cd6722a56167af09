-- ===== src/Util/Values.antt =====
-- `util::get_val`, `util::string_to_vector` (include/util.h), `util::get_random_string` and
-- `util::get_files_list` (include/util.cpp), and the instances of `format` for texts, truth values
-- and lists (include/format.cpp). What the system and the generator give is an argument.
use highload_cup.Common.{
  ℕ, Bool, true, false, ◌||◌, List, [], ◌∷◌, ◌++◌, Option, none, some, if◌then◌else◌, Bytes, codes,
  bytes_eq, get_elem?, Result, ok, throw, null_pointer, no_field, ◌>>=◌,
}
use highload_cup.Common.Text.{to_string}
use highload_cup.Util.Numbers.{format_size}

-- A map by its entries, and `find`.
abbrev find_value : List (Bytes × Bytes) → Bytes → Option Bytes
find_value [] key = none
find_value ((k, v) ∷ m) key = if bytes_eq k key then some v else find_value m key

module _ {R : Type 0} (format : Bytes → Result R) where
  -- `get_val` with a value for a missing key, and without.
  unfoldable pub get_val_or : List (Bytes × Bytes) → Bytes → R → Result R
  get_val_or arg_map arg_key arg_value = elim (find_value arg_map arg_key) [
    | none ↦ ok arg_value
    | some v ↦ format v
  ]

  unfoldable pub get_val : List (Bytes × Bytes) → Bytes → Result R
  get_val arg_map arg_key = elim (find_value arg_map arg_key) [
    | none ↦ throw no_field
    | some v ↦ format v
  ]

  -- `string_to_vector`: `res` is a null pointer, to which the first value, once read, would be added;
  -- for no value the null pointer is returned.
  unfoldable pub string_to_vector :
      (Bytes → Bytes → List Bytes) → Bytes → Bytes → Result (Option (List R))
  string_to_vector split [] del = ok none
  string_to_vector split (c ∷ str) del = elim (split (c ∷ str) del) [
    | [] ↦ ok none
    | val ∷ vals ↦ format val >>= λ _. throw null_pointer
  ]

-- `get_random_string`: one letter for each draw, until the text is long enough. There are as many
-- draws as letters to come; `none` is a draw beyond the alphabet, which the distribution never gives.
unfoldable pub get_random_string : Bytes → List ℕ → Option Bytes
get_random_string alphabet [] = some []
get_random_string [] (draw ∷ draws) = some []
get_random_string (a ∷ alphabet) (draw ∷ draws) = elim (get_elem? (a ∷ alphabet) draw) [
  | none ↦ none
  | some c ↦ elim (get_random_string (a ∷ alphabet) draws) [
    | none ↦ none
    | some res ↦ some (c ∷ res)
  ]
]

-- The loop of `get_files_list` over the names that `readdir` gives.
unfoldable pub get_files_list : List Bytes → List Bytes
get_files_list [] = []
get_files_list (file ∷ rest) =
    let res = get_files_list rest in
    if bytes_eq file (codes ".") || bytes_eq file (codes "..") then res else file ∷ res

-- `format<bool>` and back.
unfoldable pub format_bool : Bytes → Bool
format_bool arg = bytes_eq arg (codes "true")

unfoldable pub bool_text : Bool → Bytes
bool_text true = codes "true"
bool_text false = codes "false"

-- `format` of a list of texts, and of a list of identifiers.
unfoldable pub format_strings : (Bytes → Bytes → List Bytes) → Bytes → List Bytes
format_strings split arg = split arg (codes ",")

unfoldable pub oids_of : List Bytes → Result (List ℕ)
unfolding format_size
oids_of [] = ok []
oids_of (val ∷ vals) = format_size val >>= λ oid. oids_of vals >>= λ res. ok (oid ∷ res)

unfoldable pub format_oids : (Bytes → Bytes → List Bytes) → Bytes → Result (List ℕ)
unfolding oids_of
format_oids split arg = oids_of (split arg (codes ","))

-- The loops that write a list with commas; a null pointer gives the empty text.
abbrev pub with_commas : Bool → List Bytes → Bytes
with_commas flag [] = []
with_commas flag (val ∷ rest) = (if flag then codes "," else []) ++ (val ++ with_commas true rest)

abbrev pub texts_of : List ℕ → List Bytes
texts_of [] = []
texts_of (oid ∷ rest) = to_string oid ∷ texts_of rest

unfoldable pub strings_text : Option (List Bytes) → Bytes
strings_text none = []
strings_text (some arg) = with_commas false arg

unfoldable pub oids_text : Option (List ℕ) → Bytes
unfolding to_string
oids_text none = []
oids_text (some arg) = with_commas false (texts_of arg)
