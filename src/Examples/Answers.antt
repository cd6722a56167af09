-- ===== src/Examples/Answers.antt =====
-- The answers to requests for the visits of a user and for the average of a location.
use mathlib.Core.List.{foldl}
use highload_cup.Common.{
  arith, ℕ, ◌≡◌, refl, true, List, [], ◌∷◌, ◌++◌, none, some, ◌↔◌, Bytes, codes, length, All, ok,
}
use highload_cup.Common.Int.{ℤ}
use highload_cup.Util.Numbers.{itoa, format_uint32}
use highload_cup.Http.Request.Query.{query_text}
use highload_cup.Store.User
use highload_cup.Store.Location
use highload_cup.Store.Visit
use highload_cup.Store.Libs.{done}
use highload_cup.Store.State.{contains, construct, initialize_ages}
use highload_cup.Store.Utf8.{length_utf8}
use highload_cup.Store.Insert.{insert}
use highload_cup.Store.Update.{update}
use highload_cup.Store.Worker.{round}
use highload_cup.Store.Read.{VisitsQuery, MarkQuery, average, join}
use highload_cup.Store.Read.Marks.{marks}
use highload_cup.Store.Worker.Single.{IsSingle}
use highload_cup.Store.Read.Filter.{IsOrdered, has_time}
use highload_cup.Store.Read.Settled.{IsVisitOf, IsVisitAt}
use highload_cup.Store.Instances.{list_map, known_libs, new_year}
use highload_cup.Store.Cache.Objects.{requests}
use highload_cup.Processor.Answers.{ok200}
use highload_cup.Processor.Routes.Paths.{call_path}
use highload_cup.Processor.Query.{argument, visits_query, mark_query}
use highload_cup.Processor.Handle.{serve}
use highload_cup.Processor.Handle.Table.{serve-table, serve_avg-table}
use highload_cup.Examples.Requests.{in_russia, in_russia-IsWritable, old_request}
use highload_cup.Examples.Objects.{visit_requests, waiting_base, settled_base}

abbrev russian_visits : VisitsQuery
russian_visits = record {
  from_date = none;
  to_date = none;
  country = some (codes "RU");
  to_distance = none;
}

prints_7 : itoa 7 10 ≡ ok (codes "7")
unfolding itoa
prints_7 = refl

reads_russian : visits_query (codes "7") in_russia ≡ ok (7, russian_visits)
unfolding visits_query argument format_uint32
reads_russian = refl

abbrev request_text : Bytes
request_text =
    query_text (call_path (codes "users") (codes "7") (codes "visits")) in_russia (codes "HTTP")

serve-table_example :
    (entries : List (ℤ × Bytes)) × (serve known_libs settled_base old_request
        (request_text ++ 0 ∷ [])
        (length request_text)
      ≡ done (settled_base, ok200 (codes "{\"visits\":[" ++ (join entries ++ codes "]}"))))
    × IsOrdered entries
    × All (IsVisitOf settled_base russian_visits 7) entries
    × ((k : ℤ) → has_time k entries ≡ true ↔ IsVisitAt settled_base russian_visits 7 k)
unfolding requests insert update User.deserializate Location.deserializate Visit.deserializate
    Visit.deserializate_update length_utf8 construct initialize_ages round
serve-table_example =
    serve-table known_libs new_year visit_requests waiting_base settled_base 7 (codes "7")
      old_request (codes "HTTP") [] 0 (codes "country", codes "RU") [] russian_visits 0 refl refl
      refl (omega arith) prints_7 in_russia-IsWritable reads_russian

abbrev all_marks : MarkQuery
all_marks = record {
  from_date = none;
  to_date = none;
  from_age = none;
  to_age = none;
  gender = none;
}

prints_2 : itoa 2 10 ≡ ok (codes "2")
unfolding itoa
prints_2 = refl

-- The country is no parameter of an average.
reads_all : mark_query (codes "2") in_russia ≡ ok (2, all_marks)
unfolding mark_query argument format_uint32
reads_all = refl

abbrev avg_text : Bytes
avg_text =
    query_text (call_path (codes "locations") (codes "2") (codes "avg")) in_russia (codes "HTTP")

serve_avg-table_example :
    (ids : List ℕ) × IsSingle ids
    × ((v : ℕ)
        → contains v ids ≡ true ↔ (
            (a : ℕ) × (list_map.find v settled_base.visits ≡ some a)
            × ((settled_base.visit_heap.cell a).location ≡ 2)))
    × (serve known_libs settled_base old_request (avg_text ++ 0 ∷ []) (length avg_text)
        ≡ done (
          settled_base,
          ok200 (
              codes "{\"avg\": "
              ++ average known_libs (
                length (marks known_libs settled_base all_marks ids),
                foldl known_libs.add_mark 0 (marks known_libs settled_base all_marks ids),
              )),
        ))
unfolding requests insert update User.deserializate Location.deserializate Visit.deserializate
    Visit.deserializate_update length_utf8 construct initialize_ages round
serve_avg-table_example =
    serve_avg-table known_libs new_year visit_requests waiting_base settled_base 2 (codes "2")
      old_request (codes "HTTP") [] 0 (codes "country", codes "RU") [] all_marks 0 refl refl refl
      (omega arith) prints_2 in_russia-IsWritable reads_all
