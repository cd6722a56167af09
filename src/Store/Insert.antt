-- ===== src/Store/Insert.antt =====
-- `base::insert` (base.cpp), `print_size` apart. The two critical sections of an insertion are one
-- step here; Worker/Steps has them apart.
use highload_cup.Common.{
  ℕ, Bool, true, false, not, [], ◌∷◌, ◌++◌, if◌then◌else◌, Bytes, codes, bytes_eq,
}
use highload_cup.Store.HashMap.{HashMap}
use highload_cup.Store.Libs.{Libs, Run, done, refused, aborted, hung, ◌>>=◌}
use highload_cup.Store.Fields.{or_abort}
use highload_cup.Store.User
use highload_cup.Store.Location
use highload_cup.Store.Visit
use highload_cup.Store.Visit.{Visit}
use highload_cup.Store.State.{Base, Task, add, alloc}

-- `if (!deserializate(...)) return b;`
abbrev pub attempt : {A B : Type 0} → Run A → B → (A → Run B) → Run B
attempt refused b f = done b
attempt (done a) b f = f a
attempt aborted b f = aborted
attempt hung b f = hung

module _ {d : HashMap} where
  abbrev pub push_user : Base d → ℕ → Base d
  push_user b address = record b {
    tasks_user = b.tasks_user ++ address ∷ [];
    data_user_flag = true;
  }

  abbrev pub push_location : Base d → ℕ → Base d
  push_location b address = record b {
    tasks_location = b.tasks_location ++ address ∷ [];
    data_location_flag = true;
  }

  abbrev pub push_task : Base d → Task → Base d
  push_task b task = record b { tasks = b.tasks ++ task ∷ []; data_visit_flag = true }

  unfoldable pub insert_user : Libs → Base d → Bytes → Run (Base d × Bool)
  insert_user libs b json =
      attempt (User.deserializate libs json) (b, false)
        λ user.
          let address = b.user_heap.next in
          or_abort (d.insert user.id address b.users) >>= λ (users, inserted).
          let b' = record b { users = users; user_heap = alloc b.user_heap user } in
          done (if not inserted then (b', false) else (push_user b' address, true))

  -- The first critical section: the table and the new object.
  unfoldable pub place_visit : Base d → Visit → Run (Base d × Bool)
  place_visit b visit =
      or_abort (d.insert visit.id b.visit_heap.next b.visits) >>= λ (visits, inserted).
      done (record b { visits = visits; visit_heap = alloc b.visit_heap visit }, inserted)

  unfoldable pub insert_visit : Libs → Base d → Bytes → Run (Base d × Bool)
  unfolding place_visit
  insert_visit libs b json =
      attempt (Visit.deserializate libs json) (b, false)
        λ visit. place_visit b visit >>= λ (b', inserted).
          done (if inserted then (push_task b' (add b.visit_heap.next), true) else (b', false))

  unfoldable pub insert_location : Libs → Base d → Bytes → Run (Base d × Bool)
  insert_location libs b json =
      attempt (Location.deserializate libs json) (b, false)
        λ location.
          let address = b.location_heap.next in
          or_abort (d.insert location.id address b.locations) >>= λ (locations, inserted).
          let b' = record b {
            locations = locations;
            location_heap = alloc b.location_heap location;
          } in
          done (if not inserted then (b', false) else (push_location b' address, true))

  unfoldable pub insert : Libs → Base d → Bytes → Bytes → Run (Base d × Bool)
  unfolding insert_user insert_visit insert_location
  insert libs b name json =
      if bytes_eq name (codes "users")
      then insert_user libs b json
      else if bytes_eq name (codes "visits")
      then insert_visit libs b json
      else if bytes_eq name (codes "locations")
      then insert_location libs b json
      else done (b, false)

  -- `users_size`, `visits_size` and `locations_size`.
  abbrev pub users_size : Base d → ℕ
  users_size b = d.size b.users

  abbrev pub visits_size : Base d → ℕ
  visits_size b = d.size b.visits

  abbrev pub locations_size : Base d → ℕ
  locations_size b = d.size b.locations
