-- ===== src/Store/Cache/Calls.antt =====
-- The calls that write keep the texts of the users and the locations right.
use highload_cup.Common.{
  ℕ, ◌≡◌, refl, subst, Bool, true, false, not, if◌then◌else◌, Option-cases, inl, inr, Bytes, codes,
  bytes_eq,
}
use highload_cup.Store.HashMap.{HashMap}
use highload_cup.Store.Libs.{Libs, Run, done}
use highload_cup.Store.Fields.{or_abort}
use highload_cup.Store.User
use highload_cup.Store.User.{User}
use highload_cup.Store.Location
use highload_cup.Store.Location.{Location}
use highload_cup.Store.Visit
use highload_cup.Store.Visit.{Visit}
use highload_cup.Store.State.{Base, change, write}
use highload_cup.Store.Insert.{
  place_visit, push_user, push_location, push_task, insert_user, insert_visit, insert_location,
  insert,
}
use highload_cup.Store.Update.{update_user, update_visit, update_location, update}
use highload_cup.Store.Worker.Sets.{bind-eq-done, done_inj}
use highload_cup.Store.Worker.Handlers.{attempt-eq-done, chosen}
use highload_cup.Store.Worker.Fresh.{Cached}
use highload_cup.Store.Cache.{
  IsFreshUser, IsFreshLocation, write-AllCells, alloc-AllCells, user-deserializate,
  location-deserializate,
}

module _ {d : HashMap} (libs : Libs) where
  -- What a call that may give up leaves.
  abbrev Leaves : {R : Type 0} → (Base d × R) → Type 0
  Leaves r = Cached r.0

  if-Leaves :
      {R : Type 0} (c : Bool) (x y : Base d × R) → Leaves x → Leaves y → Leaves (if c then x else y)
  if-Leaves true x y h k = h
  if-Leaves false x y h k = k

  insert_user-Cached :
      (b : Base d) (json : Bytes) (r : Base d × Bool)
      → insert_user libs b json ≡ done r
      → Cached b
      → Leaves r
  unfolding insert_user
  insert_user-Cached b json r e (h, k) =
      elim (attempt-eq-done (User.deserializate libs json) (b, false) _ e) [
        | inl (f, same) ↦ subst Leaves same (h, k)
        | inr (user, f, g) ↦
            let ((users, inserted), p, q) =
              bind-eq-done (or_abort (d.insert user.id b.user_heap.next b.users)) _ g in
            let fresh = inl (user-deserializate libs json user f) in
            let stored = alloc-AllCells IsFreshUser b.user_heap user h fresh in
            subst Leaves (done_inj q) (if-Leaves (not inserted) _ _ (stored, k) (stored, k))
      ]

  insert_location-Cached :
      (b : Base d) (json : Bytes) (r : Base d × Bool)
      → insert_location libs b json ≡ done r
      → Cached b
      → Leaves r
  unfolding insert_location
  insert_location-Cached b json r e (h, k) =
      elim (attempt-eq-done (Location.deserializate libs json) (b, false) _ e) [
        | inl (f, same) ↦ subst Leaves same (h, k)
        | inr (location, f, g) ↦
            let ((locations, inserted), p, q) =
              bind-eq-done (or_abort (d.insert location.id b.location_heap.next b.locations)) _ g in
            let fresh = inl (location-deserializate libs json location f) in
            let stored = alloc-AllCells IsFreshLocation b.location_heap location k fresh in
            subst Leaves (done_inj q) (if-Leaves (not inserted) _ _ (h, stored) (h, stored))
      ]

  insert_visit-Cached :
      (b : Base d) (json : Bytes) (r : Base d × Bool)
      → insert_visit libs b json ≡ done r
      → Cached b
      → Leaves r
  unfolding insert_visit place_visit
  insert_visit-Cached b json r e h =
      elim (attempt-eq-done (Visit.deserializate libs json) (b, false) _ e) [
        | inl (f, same) ↦ subst Leaves same h
        | inr (visit, f, g) ↦
            let ((b₁, inserted), p, q) = bind-eq-done (place_visit b visit) _ g in
            let (placed, i, j) =
              bind-eq-done (or_abort (d.insert visit.id b.visit_heap.next b.visits)) _ p in
            let h₁ : Cached b₁ = subst Leaves (done_inj j) h in
            subst Leaves (done_inj q) (if-Leaves inserted _ _ h₁ h₁)
      ]

  update_user-Cached :
      (b : Base d) (id : ℕ) (json : Bytes) (r : Base d × ℕ)
      → update_user libs b id json ≡ done r
      → Cached b
      → Leaves r
  unfolding update_user
  update_user-Cached b id json r e (h, k) = elim (Option-cases (d.find id b.users)) [
    | inl f ↦
        let e' : ◌≡◌ {A = Run (Base d × ℕ)} (done (b, 404)) (done r) = rw (f, update_user) at e in
        subst Leaves (done_inj e') (h, k)
    | inr (a, f) ↦
        elim (attempt-eq-done (User.deserializate_update libs (User.copy (b.user_heap.cell a)) json)
          (b, 400)
          (λ temp. done (
            push_user
                (record b { user_heap = write b.user_heap a (User.move (b.user_heap.cell a) temp) })
                a,
            200,
          ))
          {c = r} (rw (f, update_user) at e)) [
            | inl (g, same) ↦ subst Leaves same (h, k)
            | inr (temp, g, same) ↦ subst Leaves (done_inj same) (
              write-AllCells IsFreshUser b.user_heap (User.move (b.user_heap.cell a) temp) h
                  (inl refl) a,
              k,
            )
          ]
  ]

  update_location-Cached :
      (b : Base d) (id : ℕ) (json : Bytes) (r : Base d × ℕ)
      → update_location libs b id json ≡ done r
      → Cached b
      → Leaves r
  unfolding update_location
  update_location-Cached b id json r e (h, k) = elim (Option-cases (d.find id b.locations)) [
    | inl f ↦
        let e' : ◌≡◌ {A = Run (Base d × ℕ)} (done (b, 404)) (done r) =
          rw (f, update_location) at e in
        subst Leaves (done_inj e') (h, k)
    | inr (a, f) ↦
        elim (attempt-eq-done
          (Location.deserializate_update libs (Location.copy (b.location_heap.cell a)) json)
          (b, 400)
          (λ temp. done (
            push_location
                (record b {
                  location_heap =
                      write b.location_heap a (Location.move (b.location_heap.cell a) temp);
                })
                a,
            200,
          ))
          {c = r} (rw (f, update_location) at e)) [
            | inl (g, same) ↦ subst Leaves same (h, k)
            | inr (temp, g, same) ↦ subst Leaves (done_inj same) (
              h,
              write-AllCells IsFreshLocation b.location_heap
                  (Location.move (b.location_heap.cell a) temp) k (inl refl) a,
            )
          ]
  ]

  update_visit-Cached :
      (b : Base d) (id : ℕ) (json : Bytes) (r : Base d × ℕ)
      → update_visit libs b id json ≡ done r
      → Cached b
      → Leaves r
  unfolding update_visit
  update_visit-Cached b id json r e h = elim (Option-cases (d.find id b.visits)) [
    | inl f ↦
        let e' : ◌≡◌ {A = Run (Base d × ℕ)} (done (b, 404)) (done r) = rw (f, update_visit) at e in
        subst Leaves (done_inj e') h
    | inr (a, f) ↦
        elim (attempt-eq-done
          (Visit.deserializate_update libs (Visit.copy (b.visit_heap.cell a)) json) (b, 400)
          (λ temp. done (push_task b (change temp a), 200)) {c = r} (rw (f, update_visit) at e)) [
            | inl (g, same) ↦ subst Leaves same h
            | inr (temp, g, same) ↦ subst Leaves (done_inj same) h
          ]
  ]

  -- An insertion and an update by name.
  pub insert-Cached :
      (b : Base d) (name json : Bytes) (r : Base d × Bool)
      → insert libs b name json ≡ done r
      → Cached b
      → Leaves r
  unfolding insert
  insert-Cached b name json r e h = elim (chosen (bytes_eq name (codes "users")) _ _ e) [
    | inl f ↦ insert_user-Cached b json r f h
    | inr f ↦ elim (chosen (bytes_eq name (codes "visits")) _ _ f) [
      | inl g ↦ insert_visit-Cached b json r g h
      | inr g ↦ elim (chosen (bytes_eq name (codes "locations")) _ _ g) [
        | inl i ↦ insert_location-Cached b json r i h
        | inr i ↦ subst Leaves (done_inj i) h
      ]
    ]
  ]

  pub update-Cached :
      (b : Base d) (id : ℕ) (name json : Bytes) (r : Base d × ℕ)
      → update libs b id name json ≡ done r
      → Cached b
      → Leaves r
  unfolding update
  update-Cached b id name json r e h = elim (chosen (bytes_eq name (codes "users")) _ _ e) [
    | inl f ↦ update_user-Cached b id json r f h
    | inr f ↦ elim (chosen (bytes_eq name (codes "visits")) _ _ f) [
      | inl g ↦ update_visit-Cached b id json r g h
      | inr g ↦ elim (chosen (bytes_eq name (codes "locations")) _ _ g) [
        | inl i ↦ update_location-Cached b id json r i h
        | inr i ↦ subst Leaves (done_inj i) h
      ]
    ]
  ]
