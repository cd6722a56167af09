-- ===== src/Server/Loader.antt =====
-- `load` (highloadcup.cpp) behind the unpacking of the archive: the scanner that finds the objects of
-- a file, and their insertion. `none` is a file that cannot be opened.
pub mod Scan
pub mod Files
use highload_cup.Common.{
  ℕ, suc, ◌+◌, Bool, true, false, ◌&&◌, List, [], ◌∷◌, ◌++◌, Option, none, some, ◌==◌,
  if◌then◌else◌, Bytes, codes, take,
}
use highload_cup.Http.Request.{c_str}
use highload_cup.Store.HashMap.{HashMap}
use highload_cup.Store.Libs.{Libs, Run, done, ◌>>=◌}
use highload_cup.Store.State.{Base}
use highload_cup.Store.Insert.{insert}

-- The variables of the loop over the file.
pub record Scanner : Type 0 where
  pub first : Bool
  pub brace_open : Bool
  pub buffer : Bytes

abbrev pub start : Scanner
start = record { first = true; brace_open = false; buffer = [] }

-- Behind the test of the first brace: `buffer.clear()`, and the flag.
abbrev pub opened : Scanner → ℕ → Scanner
opened s ch = if ch == b'{' then record s { brace_open = true; buffer = [] } else s

-- The end of the body: the scanner, and the text that is inserted.
abbrev pub appended : Scanner → ℕ → Scanner × Option Bytes
appended s ch =
    if ch == b'}' && s.brace_open
    then (record s { brace_open = false; buffer = s.buffer ++ ch ∷ [] }, some (s.buffer ++ ch ∷ []))
    else (record s { buffer = s.buffer ++ ch ∷ [] }, none)

-- One round of the loop.
pub scan_step : Scanner → ℕ → Scanner × Option Bytes
scan_step s ch =
    if ch == b'{' && s.first then (record s { first = false }, none) else appended (opened s ch) ch

abbrev pub with_found : Option Bytes → List Bytes → List Bytes
with_found none rest = rest
with_found (some text) rest = text ∷ rest

-- The texts that a file's bytes have inserted, in order.
pub scan : Scanner → Bytes → List Bytes
scan s [] = []
scan s (ch ∷ file) = let (s', found) = scan_step s ch in with_found found (scan s' file)

unfoldable pub objects : Bytes → List Bytes
unfolding scan scan_step
objects file = scan start file

-- `file_ptr->rfind("_")`.
abbrev pub rfind : ℕ → Bytes → ℕ → Option ℕ → Option ℕ
rfind c [] i found = found
rfind c (b ∷ s) i found = rfind c s (i + 1) (if b == c then some i else found)

module _ (libs : Libs) {d : HashMap} where
  -- `bs.insert(entity, buffer.c_str())` on each text; what it returns is not read.
  unfoldable pub insert_all : Base d → Bytes → List Bytes → Run (Base d)
  unfolding insert
  insert_all b entity [] = done b
  insert_all b entity (text ∷ texts) =
      insert libs b entity (c_str text) >>= λ r. insert_all r.0 entity texts

  unfoldable pub load_file : Base d → Bytes × Option Bytes → Run (Base d)
  unfolding insert_all objects
  load_file b (name, content) = elim (rfind b'_' name 0 none) [
    | none ↦ done b
    | some pos ↦ elim content [
      | none ↦ done b
      | some file ↦ insert_all b (take pos name) (objects file)
    ]
  ]

  unfoldable pub load : Base d → List (Bytes × Option Bytes) → Run (Base d)
  unfolding load_file
  load b [] = done b
  load b (file ∷ files_list) = load_file b file >>= λ b'. load b' files_list
