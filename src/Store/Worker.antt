-- ===== src/Store/Worker.antt =====
-- `base::thread_function` (base.cpp): the thread that keeps the two indexes and the texts.
pub mod Sets
pub mod Index
pub mod Steps
mod Growth
mod Facts
mod Invariant
mod Queue
pub mod Reached
pub mod Handlers
pub mod Calls
pub mod Caught
pub mod Single
pub mod Fresh
use highload_cup.Common.{
  ℕ, Bool, true, false, List, [], ◌∷◌, Option, none, some, ◌==◌, if◌then◌else◌,
}
use highload_cup.Store.HashMap.{HashMap}
use highload_cup.Store.Libs.{Run, done, ◌>>=◌}
use highload_cup.Store.Fields.{or_abort}
use highload_cup.Store.User
use highload_cup.Store.Location
use highload_cup.Store.Visit
use highload_cup.Store.Visit.{Visit}
use highload_cup.Store.State.{
  Base, Heap, Task, add, change, write, contains, set_insert, set_erase, set_at,
}

module _ (d : HashMap) where
  -- `index[key].insert(visit)`.
  unfoldable pub add_index : ℕ → ℕ → d.Map (List ℕ) → Run (d.Map (List ℕ))
  add_index key visit index = or_abort (d.assign key (set_insert visit (set_at d key index)) index)

  -- `if (temp_it->second.size() == 0) index.erase(temp_it);`
  pub shrink_index : ℕ → d.Map (List ℕ) → List ℕ → Run (d.Map (List ℕ))
  shrink_index key index [] = or_abort (d.erase key index)
  shrink_index key index (x ∷ rest) = done (d.store key (x ∷ rest) index)

  -- `index.find(key)`, and the visit erased from the set that is found.
  unfoldable pub drop_index : ℕ → ℕ → d.Map (List ℕ) → Run (d.Map (List ℕ))
  unfolding shrink_index
  drop_index key visit index = elim (d.find key index) [
    | none ↦ done index
    | some set ↦ shrink_index key index (set_erase visit set)
  ]

  -- The index behind an update that moves the visit from one key to another.
  unfoldable pub move_index : ℕ → ℕ → ℕ → d.Map (List ℕ) → Run (d.Map (List ℕ))
  unfolding add_index drop_index
  move_index old_key new_key visit index =
      if old_key == new_key
      then done index
      else drop_index old_key visit index >>= add_index new_key visit

module _ {d : HashMap} where
  -- One round of `while (visits_temp.size() > 0)`.
  unfoldable pub process : Base d → Task → Run (Base d)
  unfolding move_index add_index
  process b (add address) = do
    let visit = b.visit_heap.cell address
    user_visit ← add_index d visit.user visit.id b.user_visit
    location_visit ← add_index d visit.location visit.id b.location_visit
    done (record b { user_visit = user_visit; location_visit = location_visit })
  process b (change new address) = do
    let old = b.visit_heap.cell address
    user_visit ← move_index d old.user new.user old.id b.user_visit
    location_visit ← move_index d old.location new.location old.id b.location_visit
    done (record b {
      user_visit = user_visit;
      location_visit = location_visit;
      visit_heap = write b.visit_heap address (Visit.move old new);
    })

  pub process_all : Base d → List Task → Run (Base d)
  process_all b [] = done b
  process_all b (task ∷ visits_temp) = process b task >>= λ b'. process_all b' visits_temp

  -- `serializate(true)` on each user, and on each location.
  pub serializate_users : Base d → List ℕ → Base d
  serializate_users b [] = b
  serializate_users b (address ∷ users_temp) =
      let (user, text) = User.serializate (b.user_heap.cell address) true in
      serializate_users (record b { user_heap = write b.user_heap address user }) users_temp

  pub serializate_locations : Base d → List ℕ → Base d
  serializate_locations b [] = b
  serializate_locations b (address ∷ locations_temp) =
      let (location, text) = Location.serializate (b.location_heap.cell address) true in
      serializate_locations (record b { location_heap = write b.location_heap address location })
        locations_temp

  -- The three parts of a round of the thread, behind the wait.
  pub visit_part : Base d → Run (Base d)
  unfolding process process_all
  visit_part b =
      if b.data_visit_flag
      then process_all (record b { tasks = []; data_visit_flag = false }) b.tasks
      else done b

  pub user_part : Base d → Base d
  unfolding serializate_users User.serializate
  user_part b =
      if b.data_user_flag
      then serializate_users (record b { tasks_user = []; data_user_flag = false }) b.tasks_user
      else b

  pub location_part : Base d → Base d
  unfolding serializate_locations Location.serializate
  location_part b =
      if b.data_location_flag
      then serializate_locations (record b { tasks_location = []; data_location_flag = false })
          b.tasks_location
      else b

  unfoldable pub round : Base d → Run (Base d)
  unfolding visit_part user_part location_part
  round b = visit_part b >>= λ b'. done (location_part (user_part b'))
