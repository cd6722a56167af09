-- ===== src/Examples/Base.antt =====
-- The base: one visit is inserted, added to the indexes by a round of the worker, moved to another
-- user by an update, and moved in the index by the next round.
use highload_cup.Common.{
  List, ℕ, ap, ◌≡◌, refl, ◌↔◌, true, false, [], ◌∷◌, ◌++◌, none, some, codes, All,
}
use highload_cup.Common.Int.{pos}
use highload_cup.Common.Text.{to_string, to_string_ℤ}
use highload_cup.Store.Libs.{Run, done}
use highload_cup.Store.Visit
use highload_cup.Store.Visit.{Visit}
use highload_cup.Store.Location.{Location}
use highload_cup.Store.Read.{VisitsQuery, get_visits, buffer_loop, join}
use highload_cup.Store.Read.Filter.{
  IsOrdered, IsAnswer, has_time, get_visits-IsAnswer, get_visits-has_time,
}
use highload_cup.Store.State.{
  Base, construct, contains, set_at, initialize_ages, generate_timestamp_from_age,
  get_timestamp_from_age, get_timestamp_to_age,
}
use highload_cup.Store.State.Ages.{timestamps_of_age}
use highload_cup.Store.Insert.{insert_visit}
use highload_cup.Store.Update.{update_visit}
use highload_cup.Store.Worker.{round, move_index}
use highload_cup.Store.Worker.Steps.{waits, Reach, Indexed}
use highload_cup.Store.Worker.Sets.{contains-move_index}
use highload_cup.Store.Worker.Handlers.{
  idle, insert_visit-Reach, update_visit-Reach, round-Reach, Reach-trans,
}
use highload_cup.Store.Worker.Caught.{round-user_index}
use highload_cup.Store.Worker.Calls.{
  Call, insertion, change_of, worker_round, calls, calls-user_index,
}
use highload_cup.Store.Worker.Reached.{
  started, Reach-Indexed, user_index_settled, location_index_settled,
}
use highload_cup.Store.Instances.{list_map, known_libs, new_year}

abbrev empty_base : Base list_map
empty_base = construct list_map known_libs new_year

abbrev base_of : {A : Type 0} → Run (Base list_map × A) → Base list_map
base_of (done (b, a)) = b
base_of _ = empty_base

abbrev base_after : Run (Base list_map) → Base list_map
base_after (done b) = b
base_after _ = empty_base

abbrev inserted : Base list_map
inserted = base_of (insert_visit known_libs empty_base (codes "visit"))

abbrev indexed : Base list_map
indexed = base_after (round inserted)

abbrev updated : Base list_map
updated = base_of (update_visit known_libs indexed 5 (codes "moved"))

abbrev moved : Base list_map
moved = base_after (round updated)

insert_visit-Reach_example : Reach known_libs (idle empty_base) (idle inserted)
unfolding insert_visit Visit.deserializate Visit.deserializate_update construct initialize_ages
insert_visit-Reach_example =
    insert_visit-Reach known_libs empty_base inserted (codes "visit") true refl

round-Reach_example : Reach known_libs (idle inserted) (idle indexed)
unfolding insert_visit Visit.deserializate Visit.deserializate_update construct round
    initialize_ages
round-Reach_example = round-Reach known_libs inserted indexed refl

update_visit-Reach_example : Reach known_libs (idle indexed) (idle updated)
unfolding insert_visit Visit.deserializate Visit.deserializate_update construct round update_visit
    initialize_ages
update_visit-Reach_example =
    update_visit-Reach known_libs indexed updated 5 (codes "moved") 200 refl

updated_run : Reach known_libs (idle indexed) (idle updated)
unfolding insert_visit Visit.deserializate Visit.deserializate_update construct round update_visit
    initialize_ages
updated_run = update_visit-Reach known_libs indexed updated 5 (codes "moved") 200 refl

last_round : Reach known_libs (idle updated) (idle moved)
unfolding insert_visit Visit.deserializate Visit.deserializate_update construct round update_visit
    initialize_ages
last_round = round-Reach known_libs updated moved refl

first_round : Reach known_libs (started list_map known_libs new_year) (idle indexed)
unfolding started insert_visit Visit.deserializate Visit.deserializate_update construct round
    initialize_ages
first_round =
    Reach-trans known_libs
      (insert_visit-Reach known_libs empty_base inserted (codes "visit") true refl)
      (round-Reach known_libs inserted indexed refl)

whole_run : Reach known_libs (started list_map known_libs new_year) (idle moved)
whole_run = Reach-trans known_libs first_round (Reach-trans known_libs updated_run last_round)

settled_run : waits (idle moved) ≡ (λ a. false)
unfolding insert_visit Visit.deserializate Visit.deserializate_update construct round update_visit
    initialize_ages
settled_run = refl

user_index_settled_example :
    contains 5 (set_at list_map 7 moved.user_visit) ≡ true
    ↔ ((a : ℕ) × (list_map.find 5 moved.visits ≡ some a) × ((moved.visit_heap.cell a).user ≡ 7))
user_index_settled_example =
    user_index_settled known_libs new_year (idle moved) whole_run (λ a. ap (λ f. f a) settled_run) 7
      5

location_index_settled_example :
    contains 5 (set_at list_map 2 moved.location_visit) ≡ true
    ↔ ((a : ℕ) × (list_map.find 5 moved.visits ≡ some a) × ((moved.visit_heap.cell a).location ≡ 2))
location_index_settled_example =
    location_index_settled known_libs new_year (idle moved) whole_run
      (λ a. ap (λ f. f a) settled_run) 2 5

Reach-Indexed_example : Indexed (idle moved)
Reach-Indexed_example = Reach-Indexed known_libs new_year (idle moved) whole_run

-- The moved visit stands under its new user only.
moved_sets :
    (set_at list_map 7 moved.user_visit ≡ 5 ∷ []) × (set_at list_map 3 moved.user_visit ≡ [])
unfolding insert_visit Visit.deserializate Visit.deserializate_update construct round update_visit
    initialize_ages
moved_sets = (refl, refl)

entry_moved : contains 5 (set_at list_map 7 ((7, 5 ∷ []) ∷ [])) ≡ true
unfolding move_index
entry_moved = contains-move_index list_map 3 7 5 ((3, 5 ∷ []) ∷ []) ((7, 5 ∷ []) ∷ []) refl 7 5

timestamps_of_age_example :
    (get_timestamp_from_age known_libs new_year (initialize_ages known_libs new_year) 30 ≡ pos 88)
    × (get_timestamp_to_age known_libs new_year (initialize_ages known_libs new_year) 30 ≡ pos 86)
unfolding generate_timestamp_from_age
timestamps_of_age_example = timestamps_of_age known_libs new_year 30

abbrev any_visit : VisitsQuery
any_visit = record { from_date = none; to_date = some (pos 41); country = none; to_distance = none }

abbrev a_visit : Visit
a_visit = record { id = 5; location = 2; user = 7; visited_at = pos 40; mark = 4 }

abbrev a_location : Location
a_location = record {
  id = 2;
  place = codes "Park";
  country = codes "RU";
  city = codes "M";
  distance = 1;
  serialization = [];
}

-- One user, one location and one visit.
abbrev small_base : Base list_map
small_base = record empty_base {
  users = (7, 0) ∷ [];
  locations = (2, 0) ∷ [];
  location_heap = record { next = 1; cell = λ a. a_location };
  visits = (5, 0) ∷ [];
  visit_heap = record { next = 1; cell = λ a. a_visit };
  user_visit = (7, 5 ∷ []) ∷ [];
}

small_answers :
    (get_visits small_base 7 any_visit
      ≡ codes "{\"visits\":["
        ++ (join (buffer_loop small_base any_visit (5 ∷ []) []) ++ codes "]}"))
    × IsOrdered (buffer_loop small_base any_visit (5 ∷ []) [])
    × All (IsAnswer small_base any_visit (5 ∷ [])) (buffer_loop small_base any_visit (5 ∷ []) [])
small_answers = get_visits-IsAnswer small_base any_visit 7 0 (5 ∷ []) refl refl

small_times :
    (get_visits small_base 7 any_visit
      ≡ codes "{\"visits\":["
        ++ (join (buffer_loop small_base any_visit (5 ∷ []) []) ++ codes "]}"))
    × (has_time (pos 40) (buffer_loop small_base any_visit (5 ∷ []) []) ≡ true)
small_times =
    get_visits-has_time small_base any_visit 7 0 (5 ∷ []) 5 a_visit a_location refl refl refl refl
      refl

one_answer :
    get_visits small_base 7 any_visit
    ≡ codes "{\"visits\":[{\"mark\":4,\"visited_at\":40,\"place\":\"Park\"}]}"
unfolding get_visits construct initialize_ages to_string to_string_ℤ
one_answer = refl

abbrev four_calls : List Call
four_calls =
    insertion (codes "visit") ∷ worker_round ∷ change_of 5 (codes "moved") ∷ worker_round ∷ []

moved_index :
    contains 5 (set_at list_map 7 moved.user_visit) ≡ true
    ↔ ((a : ℕ) × (list_map.find 5 moved.visits ≡ some a) × ((moved.visit_heap.cell a).user ≡ 7))
unfolding calls insert_visit Visit.deserializate Visit.deserializate_update construct round
    update_visit initialize_ages
moved_index = calls-user_index known_libs new_year four_calls moved refl refl 7 5

abbrev three_calls : List Call
three_calls = insertion (codes "visit") ∷ worker_round ∷ change_of 5 (codes "moved") ∷ []

round-user_index_example :
    (moved.tasks ≡ [])
    × ((u v : ℕ)
        → contains v (set_at list_map u moved.user_visit) ≡ true ↔ (
            (a : ℕ) × (list_map.find v moved.visits ≡ some a)
            × ((moved.visit_heap.cell a).user ≡ u)))
unfolding calls insert_visit Visit.deserializate Visit.deserializate_update construct round
    update_visit initialize_ages
round-user_index_example = round-user_index known_libs new_year three_calls updated moved refl refl
