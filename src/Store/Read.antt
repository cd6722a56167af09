-- ===== src/Store/Read.antt =====
-- `base::get_object`, `base::get_visits` and `base::get_mark` (base.cpp). An option stands for a
-- flag `is_x` with its value `x`. The empty text is the answer for an object that is not there.
pub mod Filter
pub mod Averages
pub mod Marks
pub mod Settled
use highload_cup.Common.{
  ℕ, ◌+◌, Bool, true, false, ◌&&◌, ◌||◌, not, List, [], ◌∷◌, ◌++◌, Option, none, some, leb, ltb,
  ◌==◌, if◌then◌else◌, Bytes, codes, bytes_eq,
}
use highload_cup.Common.Int.{ℤ, pos, ltb_ℤ, leb_ℤ}
use highload_cup.Common.Text.{to_string, to_string_ℤ}
use highload_cup.Store.HashMap.{HashMap}
use highload_cup.Store.Libs.{Libs}
use highload_cup.Store.User
use highload_cup.Store.User.{User}
use highload_cup.Store.Location
use highload_cup.Store.Location.{Location}
use highload_cup.Store.Visit
use highload_cup.Store.Visit.{Visit}
use highload_cup.Store.State.{Base, Heap, write, get_timestamp_from_age, get_timestamp_to_age}

-- The arguments of `get_visits` behind the id.
pub record VisitsQuery : Type 0 where
  pub from_date : Option ℤ
  pub to_date : Option ℤ
  pub country : Option Bytes
  pub to_distance : Option ℕ

-- The arguments of `get_mark` behind the id.
pub record MarkQuery : Type 0 where
  pub from_date : Option ℤ
  pub to_date : Option ℤ
  pub from_age : Option ℕ
  pub to_age : Option ℕ
  pub gender : Option ℕ

-- `is_x && test(x)`.
abbrev pub given : {A : Type 0} → Option A → (A → Bool) → Bool
given none test = false
given (some x) test = test x

-- `x`, which is 0 if it is not given.
abbrev pub value_or_zero : Option ℕ → ℕ
value_or_zero none = 0
value_or_zero (some x) = x

-- The visit is skipped by one of the tests of the loop.
abbrev pub skips_visit : VisitsQuery → Visit → Location → Bool
skips_visit q visit location =
    given q.from_date (λ from. leb_ℤ visit.visited_at from)
    || (given q.to_date (λ to. leb_ℤ to visit.visited_at)
        || (given q.to_distance (λ to. leb to location.distance)
            || given q.country (λ country. not (bytes_eq country location.country))))

unfoldable pub visit_object : Visit → Location → Bytes
visit_object visit location =
    codes "{\"mark\":"
    ++ (to_string visit.mark
        ++ (codes ",\"visited_at\":"
            ++ (to_string_ℤ visit.visited_at
                ++ (codes ",\"place\":\"" ++ (location.place ++ codes "\"}")))))

-- `std::map<long, sptr_cstr>::insert`: in the order of the keys; a key that is there keeps its
-- value.
abbrev pub ordered_insert : {A : Type 0} → ℤ → A → List (ℤ × A) → List (ℤ × A)
ordered_insert k x [] = (k, x) ∷ []
ordered_insert k x ((j, y) ∷ m) =
    if ltb_ℤ k j
    then (k, x) ∷ (j, y) ∷ m
    else if ltb_ℤ j k
    then (j, y) ∷ ordered_insert k x m
    else (j, y) ∷ m

-- One round of the loop of `get_visits`.
abbrev pub buffer_visit :
    VisitsQuery → Option (Visit × Location) → List (ℤ × Bytes) → List (ℤ × Bytes)
buffer_visit q none buffer = buffer
buffer_visit q (some (visit, location)) buffer =
    if skips_visit q visit location
    then buffer
    else ordered_insert visit.visited_at (visit_object visit location) buffer

-- The loop over `ordered_buffer`, behind the first object.
abbrev pub join_rest : List (ℤ × Bytes) → Bytes
join_rest [] = []
join_rest ((k, x) ∷ m) = b',' ∷ (x ++ join_rest m)

abbrev pub join : List (ℤ × Bytes) → Bytes
join [] = []
join ((k, x) ∷ m) = x ++ join_rest m

module _ {d : HashMap} where
  unfoldable pub get_object : Base d → Bytes → ℕ → Base d × Bytes
  unfolding User.serializate Location.serializate Visit.render
  get_object b name id =
      if bytes_eq name (codes "users")
      then elim (d.find id b.users) [
        | none ↦ (b, [])
        | some a ↦
            let (user, text) = User.serializate (b.user_heap.cell a) false in
            (record b { user_heap = write b.user_heap a user }, text)
      ]
      else if bytes_eq name (codes "visits")
      then elim (d.find id b.visits) [
        | none ↦ (b, [])
        | some a ↦ (b, Visit.render (b.visit_heap.cell a))
      ]
      else if bytes_eq name (codes "locations")
      then elim (d.find id b.locations) [
        | none ↦ (b, [])
        | some a ↦
            let (location, text) = Location.serializate (b.location_heap.cell a) false in
            (record b { location_heap = write b.location_heap a location }, text)
      ]
      else (b, [])

  -- The visit of an id and its location, where both are there.
  abbrev pub visit_with_location : Base d → ℕ → Option (Visit × Location)
  visit_with_location b visit_id = elim (d.find visit_id b.visits) [
    | none ↦ none
    | some a ↦
        let visit = b.visit_heap.cell a in
        elim (d.find visit.location b.locations) [
          | none ↦ none
          | some l ↦ some (visit, b.location_heap.cell l)
        ]
  ]

  abbrev pub visit_with_user : Base d → ℕ → Option (Visit × User)
  visit_with_user b visit_id = elim (d.find visit_id b.visits) [
    | none ↦ none
    | some a ↦
        let visit = b.visit_heap.cell a in
        elim (d.find visit.user b.users) [ none ↦ none | some u ↦ some (visit, b.user_heap.cell u) ]
  ]

  abbrev pub buffer_loop : Base d → VisitsQuery → List ℕ → List (ℤ × Bytes) → List (ℤ × Bytes)
  buffer_loop b q [] buffer = buffer
  buffer_loop b q (visit_id ∷ ids) buffer =
      buffer_loop b q ids (buffer_visit q (visit_with_location b visit_id) buffer)

  unfoldable pub get_visits : Base d → ℕ → VisitsQuery → Bytes
  unfolding visit_object
  get_visits b id q = elim (d.find id b.users) [
    | none ↦ []
    | some a ↦ elim (d.find id b.user_visit) [
      | none ↦ codes "{\"visits\":[]}"
      | some list ↦ codes "{\"visits\":[" ++ (join (buffer_loop b q list []) ++ codes "]}")
    ]
  ]

module _ (libs : Libs) where
  -- `sprintf(m_buffer_for_avg, "%.5f}", mark / counter + 1E-10)`, or `0}`.
  abbrev pub average : ℕ × libs.Double → Bytes
  average (counter, mark) =
      if ltb 0 counter
      then libs.print_5f (libs.add (libs.divide mark counter) libs.epsilon) ++ codes "}"
      else codes "0}"

module _ (libs : Libs) {d : HashMap} where
  -- The visit is skipped by one of the tests of the loop.
  abbrev pub skips_mark : Base d → MarkQuery → Visit → User → Bool
  skips_mark b q visit user =
      given q.from_date (λ from. leb_ℤ visit.visited_at from)
      || (given q.to_date (λ to. leb_ℤ to visit.visited_at)
          || (given q.from_age
                (λ age. leb_ℤ (get_timestamp_from_age libs b.tm b.ages age) user.birth_date)
              || (given q.to_age
                    (λ age. leb_ℤ user.birth_date (get_timestamp_to_age libs b.tm b.ages age))
                  || given q.gender (λ gender. not (gender == user.gender)))))

  -- One round of the loop of `get_mark`, on `counter` and `mark`.
  abbrev pub count_visit :
      Base d → MarkQuery → Option (Visit × User) → ℕ × libs.Double → ℕ × libs.Double
  count_visit b q none c = c
  count_visit b q (some (visit, user)) (counter, mark) =
      if skips_mark b q visit user
      then (counter, mark)
      else (counter + 1, libs.add_mark mark visit.mark)

  abbrev pub mark_loop : Base d → MarkQuery → List ℕ → ℕ × libs.Double → ℕ × libs.Double
  mark_loop b q [] c = c
  mark_loop b q (visit_id ∷ ids) c =
      mark_loop b q ids (count_visit b q (visit_with_user b visit_id) c)

  unfoldable pub get_mark : Base d → ℕ → MarkQuery → Bytes
  unfolding get_timestamp_from_age get_timestamp_to_age
  get_mark b id q = elim (d.find id b.locations) [
    | none ↦ []
    | some a ↦ elim (d.find id b.location_visit) [
      | none ↦ codes "{\"avg\": 0}"
      | some list ↦ codes "{\"avg\": " ++ average libs (mark_loop b q list (0, libs.zero_mark))
    ]
  ]
