-- ===== src/Store/Fields.antt =====
-- The checks of one member of a document, as the three `deserializate` functions of base.cpp
-- repeat them. `none` is a document that lacks the member.
use highload_cup.Common.{
  ℕ, not, ◌&&◌, ◌||◌, Option, none, some, leb, if◌then◌else◌, Bytes, codes, bytes_eq, [], ◌∷◌,
}
use highload_cup.Common.Int.{ℤ}
use highload_cup.Store.Libs.{Libs, Run, done, refused, aborted, hung, ◌>>=◌}
use highload_cup.Store.Utf8.{length_utf8}

abbrev pub or_abort : {A : Type 0} → Option A → Run A
or_abort none = aborted
or_abort (some a) = done a

-- `length_utf8`, and the loop that does not end.
abbrev pub measure : Bytes → Run ℕ
measure s = elim (length_utf8 s) [ none ↦ hung | some n ↦ done n ]

-- `else return false`.
abbrev pub required : {A : Type 0} → Option A → Run A
required none = refused
required (some a) = done a

-- The member keeps the value of the object.
abbrev pub optional : {A : Type 0} → A → Option A → A
optional old none = old
optional old (some a) = a

-- `temp[0]`.
abbrev pub first : Bytes → ℕ
first [] = 0
first (c ∷ s) = c

module _ (libs : Libs) where
  open libs use {
    Document, Value, has_member, member, is_string, is_null, is_uint, is_int, get_string, get_uint,
    get_int,
  }

  -- A member that is there, under a check of its value.
  abbrev pub field : {A : Type 0} → Document → Bytes → (Value → Run A) → Run (Option A)
  field document name read = do
    has ← or_abort (has_member document name)
    if has then (read (member document name) >>= λ a. done (some a)) else done none

  abbrev pub string_value : Value → Run Bytes
  string_value v = if not (is_string v) || is_null v then refused else done (get_string v)

  -- A text of fewer characters than the limit.
  abbrev pub short_value : ℕ → Value → Run Bytes
  short_value limit v = do
    temp ← string_value v
    n ← measure temp
    if leb limit n then refused else done temp

  abbrev pub gender_value : Value → Run ℕ
  gender_value v = do
    temp ← string_value v
    if not (bytes_eq temp (codes "m")) && not (bytes_eq temp (codes "f"))
        then refused
        else done (first temp)

  abbrev pub uint_value : Value → Run ℕ
  uint_value v = if not (is_uint v) || is_null v then refused else done (get_uint v)

  abbrev pub int_value : Value → Run ℤ
  int_value v = if not (is_int v) || is_null v then refused else done (get_int v)

  -- `document.Parse(json)`, in the `try` block.
  abbrev pub document_of : Bytes → Run Document
  document_of json = elim (libs.parse json) [ none ↦ refused | some document ↦ done document ]
