-- ===== src/Examples/Objects.antt =====
-- What is answered for objects, and the average of a location.
use mathlib.Core.List.{foldl}
use highload_cup.Common.{
  ℕ, ◌==◌, if◌then◌else◌, ◌≡◌, refl, true, List, [], ◌∷◌, ◌++◌, none, some, codes, length, ◌↔◌,
  Bytes, All,
}
use highload_cup.Common.Int.{ℤ, pos}
use highload_cup.Common.Text.{to_string, to_string_ℤ}
use highload_cup.Store.Libs.{Run, done}
use highload_cup.Store.User
use highload_cup.Store.User.{User}
use highload_cup.Store.Location
use highload_cup.Store.Location.{Location}
use highload_cup.Store.Visit
use highload_cup.Store.Visit.{Visit}
use highload_cup.Store.State.{Base, construct, contains, initialize_ages}
use highload_cup.Store.Utf8.{length_utf8}
use highload_cup.Store.Insert.{insert}
use highload_cup.Store.Update.{update}
use highload_cup.Store.Worker.{round}
use highload_cup.Store.Read.{
  MarkQuery, VisitsQuery, join, average, get_mark, get_object, get_visits,
}
use highload_cup.Store.Read.Averages.{get_mark-table}
use highload_cup.Store.Worker.Single.{IsSingle}
use highload_cup.Store.Read.Marks.{marks, get_mark-average}
use highload_cup.Store.Read.Filter.{IsOrdered, has_time}
use highload_cup.Store.Read.Settled.{IsVisitOf, IsVisitAt, get_visits-table}
use highload_cup.Store.Instances.{list_map, known_libs, new_year}
use highload_cup.Store.Cache.Objects.{
  Request, insertion, change_of, reading, worker_round, requests, get_object-user,
  get_object-location,
}

abbrev first_base : Base list_map
first_base = construct list_map known_libs new_year

-- A user and a location that are inserted, read, changed, and read again.
abbrev some_requests : List Request
some_requests =
    insertion (codes "users") (codes "user")
    ∷ insertion (codes "locations") (codes "location")
    ∷ reading (codes "users") 7
    ∷ reading (codes "locations") 2
    ∷ change_of 7 (codes "users") (codes "married")
    ∷ change_of 2 (codes "locations") (codes "renamed")
    ∷ []

-- The base that a run returns.
abbrev returned : Run (Base list_map) → Base list_map
returned (done b) = b
returned _ = first_base

abbrev last_base : Base list_map
last_base = returned (requests known_libs first_base some_requests)

get_object-user_example :
    (get_object last_base (codes "users") 7).1 ≡ User.render (last_base.user_heap.cell 0)
unfolding requests insert update User.deserializate User.deserializate_update Location.deserializate
    Location.deserializate_update length_utf8 construct initialize_ages get_object
get_object-user_example = get_object-user known_libs new_year some_requests last_base 7 0 refl refl

get_object-location_example :
    (get_object last_base (codes "locations") 2).1
    ≡ Location.render (last_base.location_heap.cell 0)
unfolding requests insert update User.deserializate User.deserializate_update Location.deserializate
    Location.deserializate_update length_utf8 construct initialize_ages get_object
get_object-location_example =
    get_object-location known_libs new_year some_requests last_base 2 0 refl refl

-- The answer has the name that the user has now.
new_name : (last_base.user_heap.cell 0).last_name ≡ codes "Cole"
unfolding requests insert update User.deserializate User.deserializate_update Location.deserializate
    Location.deserializate_update length_utf8 construct initialize_ages get_object
new_name = refl

-- Two visits of the location, of which the query takes one.
abbrev visit_at : ℕ → ℕ → Visit
visit_at id mark = record { id = id; location = 2; user = 7; visited_at = pos id; mark = mark }

abbrev marked_base : Base list_map
marked_base = record first_base {
  users = (7, 0) ∷ [];
  locations = (2, 0) ∷ [];
  visits = (5, 0) ∷ (6, 1) ∷ [];
  visit_heap = record { next = 2; cell = λ a. if a == 0 then visit_at 5 4 else visit_at 6 3 };
  location_visit = (2, 5 ∷ 6 ∷ []) ∷ [];
}

abbrev late_marks : MarkQuery
late_marks = record {
  from_date = some (pos 5);
  to_date = none;
  from_age = none;
  to_age = none;
  gender = none;
}

late_average :
    get_mark known_libs marked_base 2 late_marks
    ≡ codes "{\"avg\": "
      ++ average known_libs (
        length (marks known_libs marked_base late_marks (5 ∷ 6 ∷ [])),
        foldl known_libs.add_mark 0 (marks known_libs marked_base late_marks (5 ∷ 6 ∷ [])),
      )
late_average = get_mark-average known_libs marked_base late_marks 2 0 (5 ∷ 6 ∷ []) refl refl

one_mark : marks known_libs marked_base late_marks (5 ∷ 6 ∷ []) ≡ 3 ∷ []
unfolding construct
one_mark = refl

-- A user, a location and a visit, which the worker indexes and an update then gives to the user.
abbrev pub visit_requests : List Request
visit_requests =
    insertion (codes "users") (codes "user")
    ∷ insertion (codes "locations") (codes "location")
    ∷ insertion (codes "visits") (codes "visit")
    ∷ worker_round
    ∷ change_of 5 (codes "visits") (codes "moved")
    ∷ []

abbrev pub waiting_base : Base list_map
waiting_base = returned (requests known_libs first_base visit_requests)

abbrev pub settled_base : Base list_map
settled_base = returned (round waiting_base)

abbrev any_visit : VisitsQuery
any_visit = record { from_date = none; to_date = none; country = none; to_distance = none }

get_visits-table_example :
    (entries : List (ℤ × Bytes)) × (get_visits settled_base 7 any_visit
      ≡ codes "{\"visits\":[" ++ (join entries ++ codes "]}"))
    × IsOrdered entries
    × All (IsVisitOf settled_base any_visit 7) entries
    × ((k : ℤ) → has_time k entries ≡ true ↔ IsVisitAt settled_base any_visit 7 k)
unfolding requests insert update User.deserializate Location.deserializate Visit.deserializate
    Visit.deserializate_update length_utf8 construct initialize_ages round
get_visits-table_example =
    get_visits-table known_libs new_year visit_requests waiting_base settled_base any_visit 7 0 refl
      refl refl

-- The visit is answered to its new user.
moved_visit :
    get_visits settled_base 7 any_visit
    ≡ codes "{\"visits\":[{\"mark\":4,\"visited_at\":40,\"place\":\"Park\"}]}"
unfolding requests insert update User.deserializate Location.deserializate Visit.deserializate
    Visit.deserializate_update length_utf8 construct initialize_ages round get_visits to_string
    to_string_ℤ
moved_visit = refl

get_mark-table_example :
    (ids : List ℕ) × IsSingle ids
    × ((v : ℕ)
        → contains v ids ≡ true ↔ (
            (a : ℕ) × (list_map.find v settled_base.visits ≡ some a)
            × ((settled_base.visit_heap.cell a).location ≡ 2)))
    × (get_mark known_libs settled_base 2 late_marks
        ≡ codes "{\"avg\": "
          ++ average known_libs (
            length (marks known_libs settled_base late_marks ids),
            foldl known_libs.add_mark 0 (marks known_libs settled_base late_marks ids),
          ))
unfolding requests insert update User.deserializate Location.deserializate Visit.deserializate
    Visit.deserializate_update length_utf8 construct initialize_ages round
get_mark-table_example =
    get_mark-table known_libs new_year visit_requests waiting_base settled_base late_marks 2 0 refl
      refl refl
