-- ===== src/Store/State.antt =====
-- `class base` (base.h): its members, the objects that its shared pointers reach, and the
-- constructor. Addresses are numbers that are given out in order.
pub mod Ages
use highload_cup.Common.{
  ℕ, zero, suc, ◌+◌, ◌-◌, Bool, true, false, not, List, [], ◌∷◌, ◌++◌, Option, none, some, ltb,
  ◌==◌, if◌then◌else◌, Bytes, get_elem?,
}
use highload_cup.Common.Int.{ℤ, pos, ◌+ℤ◌, ◌-ℤ◌, wrap}
use highload_cup.Store.HashMap.{HashMap}
use highload_cup.Store.Libs.{Libs, Tm}
use highload_cup.Store.User.{User}
use highload_cup.Store.Location.{Location}
use highload_cup.Store.Visit.{Visit}

-- The objects of one class. A cell from `next` on has not been given out, and is never read.
pub record Heap (A : Type 0) : Type 0 where
  pub next : ℕ
  pub cell : ℕ → A

abbrev pub write : {A : Type 0} → Heap A → ℕ → A → Heap A
write h a x = record h { cell = λ b. if a == b then x else h.cell b }

-- `std::make_shared`.
abbrev pub alloc : {A : Type 0} → Heap A → A → Heap A
alloc h x = record { next = h.next + 1; cell = λ b. if h.next == b then x else h.cell b }

-- `task`: the address of a new visit, which the table of visits holds too; or a private copy with
-- the fields of an update, and the address of the visit that it is for.
pub data Task : Type 0 where
  add : ℕ → Task
  change : Visit → ℕ → Task

pub record Base (d : HashMap) : Type 0 where
  pub users : d.Map ℕ
  pub user_heap : Heap User
  pub visits : d.Map ℕ
  pub visit_heap : Heap Visit
  pub locations : d.Map ℕ
  pub location_heap : Heap Location
  -- user id, visit ids
  pub user_visit : d.Map (List ℕ)
  -- location id, visit ids
  pub location_visit : d.Map (List ℕ)
  pub tasks : List Task
  pub data_visit_flag : Bool
  pub tasks_user : List ℕ
  pub data_user_flag : Bool
  pub tasks_location : List ℕ
  pub data_location_flag : Bool
  pub tm : Tm
  pub ages : List (ℤ × ℤ)

module _ (libs : Libs) where
  unfoldable pub generate_timestamp_from_age : Tm → ℕ → ℤ × ℤ
  generate_timestamp_from_age tm age =
      let tm_local1 = record tm {
        tm_year = wrap 32 (tm.tm_year -ℤ pos age);
        tm_sec = 59;
        tm_min = 59;
        tm_hour = 23;
      } in
      let tm_local2 = record tm {
        tm_year = wrap 32 (tm.tm_year -ℤ pos age);
        tm_sec = 0;
        tm_min = 0;
        tm_hour = 0;
      } in
      (libs.mktime tm_local1 +ℤ pos 1, libs.mktime tm_local2 -ℤ pos 1)

  -- The loop of `initialize_ages`, from an age on.
  pub ages_from : Tm → ℕ → ℕ → List (ℤ × ℤ)
  ages_from tm zero age = []
  ages_from tm (suc n) age = generate_timestamp_from_age tm age ∷ ages_from tm n (age + 1)

  unfoldable pub initialize_ages : Tm → List (ℤ × ℤ)
  unfolding ages_from
  initialize_ages tm = ages_from tm 100 0

  -- `m_ages[age]`, behind the test that it exists.
  abbrev pub age_at : Tm → List (ℤ × ℤ) → ℕ → ℤ × ℤ
  age_at tm ages age =
      if ltb 99 age
      then generate_timestamp_from_age tm age
      else elim (get_elem? ages age) [ none ↦ (pos 0, pos 0) | some r ↦ r ]

  unfoldable pub get_timestamp_from_age : Tm → List (ℤ × ℤ) → ℕ → ℤ
  get_timestamp_from_age tm ages age = (age_at tm ages age).0

  unfoldable pub get_timestamp_to_age : Tm → List (ℤ × ℤ) → ℕ → ℤ
  get_timestamp_to_age tm ages age = (age_at tm ages age).1

-- The fields of an object that has not been filled.
abbrev blank_user : User
blank_user = record {
  id = 0;
  email = [];
  first_name = [];
  last_name = [];
  gender = 0;
  birth_date = pos 0;
  serialization = [];
}

abbrev blank_location : Location
blank_location = record {
  id = 0;
  place = [];
  country = [];
  city = [];
  distance = 0;
  serialization = [];
}

abbrev blank_visit : Visit
blank_visit = record { id = 0; location = 0; user = 0; visited_at = pos 0; mark = 0 }

abbrev empty_heap : {A : Type 0} → A → Heap A
empty_heap x = record { next = 0; cell = λ _. x }

-- `base()`, at the time that `gmtime` gives.
unfoldable pub construct : (d : HashMap) → Libs → Tm → Base d
construct d libs tm = record {
  users = d.empty;
  user_heap = empty_heap blank_user;
  visits = d.empty;
  visit_heap = empty_heap blank_visit;
  locations = d.empty;
  location_heap = empty_heap blank_location;
  user_visit = d.empty;
  location_visit = d.empty;
  tasks = [];
  data_visit_flag = false;
  tasks_user = [];
  data_user_flag = false;
  tasks_location = [];
  data_location_flag = false;
  tm = tm;
  ages = initialize_ages libs tm;
}

-- `std::unordered_set<uint32_t>`, in the order in which it is walked.
abbrev pub contains : ℕ → List ℕ → Bool
contains v [] = false
contains v (x ∷ s) = if x == v then true else contains v s

abbrev pub set_insert : ℕ → List ℕ → List ℕ
set_insert v s = if contains v s then s else v ∷ s

abbrev pub set_erase : ℕ → List ℕ → List ℕ
set_erase v [] = []
set_erase v (x ∷ s) = if x == v then set_erase v s else x ∷ set_erase v s

abbrev pub or_empty : Option (List ℕ) → List ℕ
or_empty none = []
or_empty (some s) = s

-- The visits that an index has for a key.
abbrev pub set_at : (d : HashMap) → ℕ → d.Map (List ℕ) → List ℕ
set_at d k m = or_empty (d.find k m)
