-- ===== src/Log.antt =====
-- `class lo` (include/log.h, include/log.cpp): its levels and the lines that it writes. What the
-- console does with a line, and the time and the name of a thread, come from outside.
use highload_cup.Common.{
  ℕ, ◌≡◌, refl, Bool, List, [], ◌∷◌, ◌++◌, leb, if◌then◌else◌, Bytes, codes, bytes_eq,
}
use highload_cup.Util.Text.{blanks, trim}

-- `log_level_t`.
pub data Level : Type 0 where
  trash db debug info input output warning error fatal : Level

abbrev pub number : Level → ℕ
number trash = 1
number db = 2
number debug = 3
number info = 4
number input = 5
number output = 6
number warning = 7
number error = 8
number fatal = 9

unfoldable pub get_level_str : Level → Bytes
get_level_str trash = codes "TRASH  "
get_level_str db = codes "DB     "
get_level_str debug = codes "DEBUG  "
get_level_str info = codes "INFO   "
get_level_str input = codes "IN     "
get_level_str output = codes "OUT    "
get_level_str warning = codes "WARNING"
get_level_str error = codes "ERROR  "
get_level_str fatal = codes "FATAL  "

unfoldable pub trans_level : Bytes → Level
trans_level str =
    if bytes_eq str (codes "TRASH")
    then trash
    else if bytes_eq str (codes "DB")
    then db
    else if bytes_eq str (codes "DEBUG")
    then debug
    else if bytes_eq str (codes "INFO")
    then info
    else if bytes_eq str (codes "IN")
    then input
    else if bytes_eq str (codes "OUT")
    then output
    else if bytes_eq str (codes "WARNING")
    then warning
    else if bytes_eq str (codes "ERROR")
    then error
    else if bytes_eq str (codes "FATAL")
    then fatal
    else fatal

unfoldable pub get_level : Level → Bytes
unfolding get_level_str trim
get_level log_level = trim (get_level_str log_level) blanks

-- `m_type >= log_level`.
abbrev pub is_on : Level → Level → Bool
is_on log_level m_type = leb (number log_level) (number m_type)

abbrev pub concat : List Bytes → Bytes
concat [] = []
concat (part ∷ parts) = part ++ concat parts

-- What one object `l` writes: its constructor, each `<<`, and its destructor.
unfoldable pub line : Level → Level → Bytes → Bytes → List Bytes → Bytes
unfolding get_level_str
line log_level m_type time thread parts =
    if is_on log_level m_type
    then time
      ++ (codes " ["
          ++ (thread
              ++ (codes "]: "
                  ++ (get_level_str m_type ++ (codes ": " ++ (concat parts ++ b'\n' ∷ []))))))
    else []

-- The level that `get_level` prints is read back by `trans_level`.
pub trans_level-get_level : (level : Level) → trans_level (get_level level) ≡ level
unfolding trans_level get_level
trans_level-get_level trash = refl
trans_level-get_level db = refl
trans_level-get_level debug = refl
trans_level-get_level info = refl
trans_level-get_level input = refl
trans_level-get_level output = refl
trans_level-get_level warning = refl
trans_level-get_level error = refl
trans_level-get_level fatal = refl
