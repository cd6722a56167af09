-- ===== src/Store/Update.antt =====
-- `base::update` (base.cpp), with the status that it returns.
use highload_cup.Common.{ℕ, none, some, if◌then◌else◌, Bytes, codes, bytes_eq}
use highload_cup.Store.HashMap.{HashMap}
use highload_cup.Store.Libs.{Libs, Run, done}
use highload_cup.Store.User
use highload_cup.Store.Location
use highload_cup.Store.Visit
use highload_cup.Store.State.{Base, change, write}
use highload_cup.Store.Insert.{attempt, push_user, push_location, push_task}

module _ {d : HashMap} where
  -- The object is changed at once; its text is made by the worker.
  unfoldable pub update_user : Libs → Base d → ℕ → Bytes → Run (Base d × ℕ)
  update_user libs b id json = elim (d.find id b.users) [
    | none ↦ done (b, 404)
    | some address ↦
        let user = b.user_heap.cell address in
        attempt (User.deserializate_update libs (User.copy user) json) (b, 400)
          λ temp. done (
            push_user (record b { user_heap = write b.user_heap address (User.move user temp) })
                address,
            200,
          )
  ]

  -- The visit is changed by the worker, to a copy that is made of it now.
  unfoldable pub update_visit : Libs → Base d → ℕ → Bytes → Run (Base d × ℕ)
  update_visit libs b id json = elim (d.find id b.visits) [
    | none ↦ done (b, 404)
    | some address ↦
        attempt (Visit.deserializate_update libs (Visit.copy (b.visit_heap.cell address)) json)
          (b, 400) λ temp. done (push_task b (change temp address), 200)
  ]

  unfoldable pub update_location : Libs → Base d → ℕ → Bytes → Run (Base d × ℕ)
  update_location libs b id json = elim (d.find id b.locations) [
    | none ↦ done (b, 404)
    | some address ↦
        let location = b.location_heap.cell address in
        attempt (Location.deserializate_update libs (Location.copy location) json) (b, 400)
          λ temp. done (
            push_location
                (record b {
                  location_heap = write b.location_heap address (Location.move location temp);
                })
                address,
            200,
          )
  ]

  unfoldable pub update : Libs → Base d → ℕ → Bytes → Bytes → Run (Base d × ℕ)
  unfolding update_user update_visit update_location
  update libs b id name json =
      if bytes_eq name (codes "users")
      then update_user libs b id json
      else if bytes_eq name (codes "visits")
      then update_visit libs b id json
      else if bytes_eq name (codes "locations")
      then update_location libs b id json
      else done (b, 400)
