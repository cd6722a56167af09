-- ===== src/Processor/Query.antt =====
-- The arguments of a query, as `processor::handle` (processor.cpp) reads them in its `try` blocks.
-- `throw` stands for `options_ok = false`, whatever the exception.
use highload_cup.Common.{
  ℕ, not, ◌&&◌, List, Option, none, some, if◌then◌else◌, Bytes, codes, bytes_eq, Result, ok, throw,
  bad_symbol, ◌>>=◌,
}
use highload_cup.Common.Int.{ℤ, pos}
use highload_cup.Util.Numbers.{format_uint32, format_long}
use highload_cup.Http.Request.{lookup}
use highload_cup.Store.Fields.{first}
use highload_cup.Store.Read.{VisitsQuery, MarkQuery}

-- `if (is_x = req.is_get(key)) x = req.get(key, ...)`.
unfoldable pub argument :
    {A : Type 0} → List (Bytes × Bytes) → Bytes → (Bytes → Result A) → Result (Option A)
argument params key format = elim (lookup key params) [
  | none ↦ ok none
  | some text ↦ format text >>= λ x. ok (some x)
]

-- `format<long>`; what is read is never negative.
abbrev pub long_value : Bytes → Result ℤ
long_value text = format_long text >>= λ n. ok (pos n)

abbrev pub gender_value : Bytes → Result ℕ
gender_value temp =
    if not (bytes_eq temp (codes "m")) && not (bytes_eq temp (codes "f"))
    then throw bad_symbol
    else ok (first temp)

-- The `try` block of `/users/id/visits`.
unfoldable pub visits_query : Bytes → List (Bytes × Bytes) → Result (ℕ × VisitsQuery)
unfolding argument format_uint32 format_long
visits_query id params = do
  id_uint ← format_uint32 id
  from_date ← argument params (codes "fromDate") long_value
  to_date ← argument params (codes "toDate") long_value
  country ← argument params (codes "country") ok
  to_distance ← argument params (codes "toDistance") format_uint32
  ok (
    id_uint,
    record {
      from_date = from_date;
      to_date = to_date;
      country = country;
      to_distance = to_distance;
    },
  )

-- The `try` block of `/locations/id/avg`.
unfoldable pub mark_query : Bytes → List (Bytes × Bytes) → Result (ℕ × MarkQuery)
unfolding argument format_uint32 format_long
mark_query id params = do
  id_uint ← format_uint32 id
  from_date ← argument params (codes "fromDate") long_value
  to_date ← argument params (codes "toDate") long_value
  from_age ← argument params (codes "fromAge") format_uint32
  to_age ← argument params (codes "toAge") format_uint32
  gender ← argument params (codes "gender") gender_value
  ok (
    id_uint,
    record {
      from_date = from_date;
      to_date = to_date;
      from_age = from_age;
      to_age = to_age;
      gender = gender;
    },
  )
