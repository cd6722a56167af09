-- ===== src/Store/Worker/Caught.antt =====
-- A round of the worker leaves no task behind, so the indexes are right behind it.
use highload_cup.Common.{
  ℕ, ◌≡◌, refl, sym, ap, subst, ◌∙◌, Bool, true, false, List, [], ◌∷◌, some, ◌↔◌, Bytes,
  if◌then◌else◌, Bool-cases, Option-cases, inl, inr,
}
use highload_cup.Store.HashMap.{HashMap}
use highload_cup.Store.Libs.{Libs, Tm, Run, done}
use highload_cup.Store.Visit
use highload_cup.Store.Visit.{Visit}
use highload_cup.Store.State.{Base, Task, add, change, contains, set_at, construct}
use highload_cup.Store.Insert.{attempt, place_visit, push_task, insert_visit}
use highload_cup.Store.Update.{update_visit}
use highload_cup.Store.Worker.{process, process_all, visit_part, user_part, location_part, round}
use highload_cup.Store.Worker.Sets.{bind-eq-done, done_inj}
use highload_cup.Store.Worker.Facts.{
  place_visit-eq-done, process_add-eq-done, process_change-eq-done,
}
use highload_cup.Store.Worker.Handlers.{
  idle, attempt-eq-done, serializate_users-SameVisits, serializate_locations-SameVisits,
  round-Reach, Reach-trans,
}
use highload_cup.Store.Worker.Reached.{started, user_index_settled}
use highload_cup.Store.Worker.Calls.{
  Call, insertion, change_of, worker_round, call, calls, calls-Reach,
}

-- The flag is set as long as a task is in the queue.
abbrev pub Signalled : {d : HashMap} → Base d → Type 0
Signalled b = b.data_visit_flag ≡ false → b.tasks ≡ []

module _ {d : HashMap} where
  pub same-Signalled :
      (b b' : Base d)
      → b'.data_visit_flag ≡ b.data_visit_flag
      → b'.tasks ≡ b.tasks
      → Signalled b
      → Signalled b'
  same-Signalled b b' e f h = λ off. f ∙ h (sym e ∙ off)

  pub moved-Signalled : {b b' : Base d} → b ≡ b' → Signalled b → Signalled b'
  moved-Signalled e h = subst (λ x. Signalled x) e h

  process-tasks : (b b' : Base d) (t : Task) → process b t ≡ done b' → b'.tasks ≡ b.tasks
  process-tasks b b' (add a) h =
      let (users, locations, e, f, same) = process_add-eq-done b b' a h in ap (λ x. x.tasks) same
  process-tasks b b' (change new a) h =
      let (users, locations, e, f, same) = process_change-eq-done b b' new a h in
      ap (λ x. x.tasks) same

  process_all-tasks :
      (b b' : Base d) (l : List Task) → process_all b l ≡ done b' → b'.tasks ≡ b.tasks
  unfolding process_all
  process_all-tasks b b' [] h = ap (λ x. x.tasks) (sym (done_inj h))
  process_all-tasks b b' (t ∷ l) h =
      let (b₁, e, g) = bind-eq-done (process b t) (λ x. process_all x l) h in
      process_all-tasks b₁ b' l g ∙ process-tasks b b₁ t e

  visit_part-tasks : (b b' : Base d) → Signalled b → visit_part b ≡ done b' → b'.tasks ≡ []
  unfolding visit_part
  visit_part-tasks b b' h e = elim (Bool-cases b.data_visit_flag) [
    | inl on ↦
        process_all-tasks (record b { tasks = []; data_visit_flag = false }) b' b.tasks
          (rw (on, visit_part) at e)
    | inr off ↦ ap (λ x. x.tasks) (sym (done_inj (rw (off, visit_part) at e))) ∙ h off
  ]

  if-tasks :
      (c : Bool) (b x y : Base d)
      → x.tasks ≡ b.tasks
      → y.tasks ≡ b.tasks
      → (if c then x else y).tasks ≡ b.tasks
  if-tasks true b x y e f = e
  if-tasks false b x y e f = f

module _ {d : HashMap} (libs : Libs) where
  user_part-tasks : (b : Base d) → (user_part b).tasks ≡ b.tasks
  unfolding user_part
  user_part-tasks b =
      let (vs, heap, users, locations, same) =
        serializate_users-SameVisits libs (record b { tasks_user = []; data_user_flag = false })
          b.tasks_user in
      if-tasks b.data_user_flag b _ b same refl

  location_part-tasks : (b : Base d) → (location_part b).tasks ≡ b.tasks
  unfolding location_part
  location_part-tasks b =
      let (vs, heap, users, locations, same) =
        serializate_locations-SameVisits libs
          (record b { tasks_location = []; data_location_flag = false }) b.tasks_location in
      if-tasks b.data_location_flag b _ b same refl

  -- A round that returns empties the queue, if the flag is set as long as a task is in it.
  pub round-tasks : (b b' : Base d) → Signalled b → round b ≡ done b' → b'.tasks ≡ []
  unfolding round
  round-tasks b b' h e =
      let (b₁, f, g) = bind-eq-done (visit_part b) _ e in
      ap (λ x. x.tasks) (sym (done_inj g))
      ∙ location_part-tasks (user_part b₁)
      ∙ user_part-tasks b₁
      ∙ visit_part-tasks b b₁ h f

  pub round-Signalled : (b b' : Base d) → Signalled b → round b ≡ done b' → Signalled b'
  round-Signalled b b' h e = λ off. round-tasks b b' h e

  -- The last part of an insertion.
  pushed-Signalled :
      (fresh : Bool) (b b₁ b' : Base d) (res : Bool)
      → Signalled b₁
      → ◌≡◌ {A = Base d × Bool}
          (if fresh then (push_task b₁ (add b.visit_heap.next), true) else (b₁, false))
          (b', res)
      → Signalled b'
  pushed-Signalled true b b₁ b' res h same =
      moved-Signalled (ap (λ (r : Base d × Bool). r.0) same) (λ off. absurd cc)
  pushed-Signalled false b b₁ b' res h same =
      moved-Signalled (ap (λ (r : Base d × Bool). r.0) same) h

  pub insert_visit-Signalled :
      (b b' : Base d) (json : Bytes) (res : Bool)
      → insert_visit libs b json ≡ done (b', res)
      → Signalled b
      → Signalled b'
  unfolding insert_visit
  insert_visit-Signalled b b' json res e h =
      elim (attempt-eq-done (Visit.deserializate libs json) (b, false) _ e) [
        | inl (f, same) ↦ moved-Signalled (ap (λ (r : Base d × Bool). r.0) same) h
        | inr (visit, f, g) ↦
            let ((b₁, fresh), p, q) = bind-eq-done (place_visit b visit) _ g in
            let (vs, inserts, there) = place_visit-eq-done b b₁ visit fresh p in
            pushed-Signalled fresh b b₁ b' res
              (same-Signalled b b₁ (ap (λ x. x.data_visit_flag) there) (ap (λ x. x.tasks) there) h)
              (done_inj q)
      ]

  attempted-Signalled :
      (b : Base d) (a : ℕ) (m : Run Visit) (r : Base d × ℕ)
      → attempt m (b, 400) (λ temp. done (push_task b (change temp a), 200)) ≡ done r
      → Signalled b
      → Signalled r.0
  attempted-Signalled b a m r e h =
      elim (attempt-eq-done m (b, 400) (λ temp. done (push_task b (change temp a), 200)) {c = r}
        e) [
          | inl (f, same) ↦ moved-Signalled (ap (λ (x : Base d × ℕ). x.0) same) h
          | inr (temp, f, same) ↦
              moved-Signalled (ap (λ (x : Base d × ℕ). x.0) (done_inj same)) (λ off. absurd cc)
        ]

  pub update_visit-Signalled :
      (b b' : Base d) (id : ℕ) (json : Bytes) (status : ℕ)
      → update_visit libs b id json ≡ done (b', status)
      → Signalled b
      → Signalled b'
  unfolding update_visit
  update_visit-Signalled b b' id json status e h = elim (Option-cases (d.find id b.visits)) [
    | inl f ↦
        let e' : ◌≡◌ {A = Run (Base d × ℕ)} (done (b, 404)) (done (b', status)) =
          rw (f, update_visit) at e in
        moved-Signalled (ap (λ (r : Base d × ℕ). r.0) (done_inj e')) h
    | inr (a, f) ↦
        attempted-Signalled b a
          (Visit.deserializate_update libs (Visit.copy (b.visit_heap.cell a)) json) (b', status)
          (rw (f, update_visit) at e) h
  ]

  call-Signalled : (b b' : Base d) (c : Call) → call libs b c ≡ done b' → Signalled b → Signalled b'
  unfolding call
  call-Signalled b b' (insertion json) e h =
      let ((x, res), f, g) = bind-eq-done (insert_visit libs b json) (λ r. done r.0) e in
      moved-Signalled (done_inj g) (insert_visit-Signalled b x json res f h)
  call-Signalled b b' (change_of id json) e h =
      let ((x, res), f, g) = bind-eq-done (update_visit libs b id json) (λ r. done r.0) e in
      moved-Signalled (done_inj g) (update_visit-Signalled b x id json res f h)
  call-Signalled b b' worker_round e h = round-Signalled b b' h e

  -- Whatever calls a base has behind it, its flag is set as long as a task is in the queue.
  pub calls-Signalled :
      (b b' : Base d) (cs : List Call) → calls libs b cs ≡ done b' → Signalled b → Signalled b'
  unfolding calls
  calls-Signalled b b' [] e h = moved-Signalled (done_inj e) h
  calls-Signalled b b' (c ∷ cs) e h =
      let (x, f, g) = bind-eq-done (call libs b c) (λ y. calls libs y cs) e in
      calls-Signalled x b' cs g (call-Signalled b x c f h)

  -- Behind any sequence of insertions and updates of visits and of rounds of the worker, each of
  -- which returns, one more round that returns leaves the queue empty, and the index of users right:
  -- a visit stands under a user exactly when the table has a visit of that id, and its user is that
  -- one.
  pub round-user_index :
      (tm : Tm) (cs : List Call) (b b' : Base d)
      → calls libs (construct d libs tm) cs ≡ done b
      → round b ≡ done b'
      → (b'.tasks ≡ [])
        × ((u v : ℕ)
            → contains v (set_at d u b'.user_visit) ≡ true
              ↔ ((a : ℕ) × (d.find v b'.visits ≡ some a) × ((b'.visit_heap.cell a).user ≡ u)))
  unfolding started construct
  round-user_index tm cs b b' h e =
      let empty = round-tasks b b' (calls-Signalled (construct d libs tm) b cs h (λ off. refl)) e in
      (
        empty,
        user_index_settled libs tm (idle b')
            (Reach-trans libs (calls-Reach libs (construct d libs tm) b cs h)
              (round-Reach libs b b' e))
            (λ a. rw empty refl),
      )
