-- ===== src/Store/Worker/Handlers.antt =====
-- The handlers and a round of the worker, each as a whole, are runs of the system of steps.
use highload_cup.Common.{
  ℕ, ◌≡◌, refl, ap, subst, ◌∙◌, Bool, true, false, List, [], ◌∷◌, some, if◌then◌else◌, Option-cases,
  inl, inr, ◌⊎◌, Bytes,
}
use highload_cup.Store.HashMap.{HashMap}
use highload_cup.Store.Libs.{Libs, Run, done, refused, aborted, hung}
use highload_cup.Store.Visit
use highload_cup.Store.Visit.{Visit}
use highload_cup.Store.State.{Base, Task, add, change}
use highload_cup.Store.Insert.{attempt, place_visit, push_task, insert_visit}
use highload_cup.Store.Update.{update_visit}
use highload_cup.Store.Worker.{
  process, process_all, serializate_users, serializate_locations, visit_part, user_part,
  location_part, round,
}
use highload_cup.Store.Worker.Sets.{bind-eq-done, done_inj}
use highload_cup.Store.Worker.Steps.{
  System, Step, place, place_taken, copy_visit, push, take_tasks, work, other, Reach, here, next,
}

-- No handler between its sections, and no task that the worker has taken.
abbrev pub idle : {d : HashMap} → Base d → System d
idle b = record { base = b; in_flight = []; visits_temp = [] }

run_cases :
    {A : Type 0} (m : Run A)
    → ((a : A) × (m ≡ done a)) ⊎ ((m ≡ refused) ⊎ ((m ≡ aborted) ⊎ (m ≡ hung)))
run_cases (done a) = inl (a, refl)
run_cases refused = inr (inl refl)
run_cases aborted = inr (inr (inl refl))
run_cases hung = inr (inr (inr refl))

-- What an attempt that returns has done.
pub attempt-eq-done :
    {A B : Type 0} (m : Run A) (b : B) (f : A → Run B) {c : B}
    → attempt m b f ≡ done c
    → ((m ≡ refused) × (b ≡ c)) ⊎ ((a : A) × (m ≡ done a) × (f a ≡ done c))
attempt-eq-done refused b f h = inl (refl, done_inj h)
attempt-eq-done (done a) b f h = inr (a, refl, h)
attempt-eq-done aborted b f h = cc
attempt-eq-done hung b f h = cc

pub chosen :
    {A : Type 0} (c : Bool) (x y : A) {z : A} → (if c then x else y) ≡ z → (x ≡ z) ⊎ (y ≡ z)
chosen true x y h = inl h
chosen false x y h = inr h

module _ {d : HashMap} (libs : Libs) where
  Reach-first : {s t u : System d} → Step libs s t → Reach libs t u → Reach libs s u
  Reach-first step here = next here step
  Reach-first step (next r last) = next (Reach-first step r) last

  pub Reach-trans : {s t u : System d} → Reach libs s t → Reach libs t u → Reach libs s u
  Reach-trans r here = r
  Reach-trans r (next q last) = next (Reach-trans r q) last

  stay : {b b' : Base d} → b ≡ b' → Reach libs (idle b) (idle b')
  stay {b} e = subst (λ x. Reach libs (idle b) (idle x)) e here

  inserted-Reach :
      (b b₁ b' : Base d) (visit : Visit) (fresh res : Bool)
      → place_visit b visit ≡ done (b₁, fresh)
      → ◌≡◌ {A = Base d × Bool}
          (if fresh then (push_task b₁ (add b.visit_heap.next), true) else (b₁, false))
          (b', res)
      → Reach libs (idle b) (idle b')
  inserted-Reach b b₁ b' visit true res e same =
      Reach-trans
        (next (next here (place visit b₁ e refl)) (push [] [] (add b.visit_heap.next) refl refl))
        (stay (ap (λ (r : Base d × Bool). r.0) same))
  inserted-Reach b b₁ b' visit false res e same =
      Reach-trans (next here (place_taken visit b₁ e refl))
        (stay (ap (λ (r : Base d × Bool). r.0) same))

  -- An insertion of a visit that returns is a run of the system.
  pub insert_visit-Reach :
      (b b' : Base d) (json : Bytes) (res : Bool)
      → insert_visit libs b json ≡ done (b', res)
      → Reach libs (idle b) (idle b')
  unfolding insert_visit
  insert_visit-Reach b b' json res h =
      elim (attempt-eq-done (Visit.deserializate libs json) (b, false) _ h) [
        | inl (e, same) ↦ stay (ap (λ (r : Base d × Bool). r.0) same)
        | inr (visit, e, g) ↦
            let ((b₁, fresh), p, q) = bind-eq-done (place_visit b visit) _ g in
            inserted-Reach b b₁ b' visit fresh res p (done_inj q)
      ]

  updated-Reach :
      (b : Base d) (id a : ℕ) (m : Run Visit) (json : Bytes)
      → d.find id b.visits ≡ some a
      → Visit.deserializate_update libs (Visit.copy (b.visit_heap.cell a)) json ≡ m
      → (r : Base d × ℕ)
      → attempt m (b, 400) (λ temp. done (push_task b (change temp a), 200)) ≡ done r
      → Reach libs (idle b) (idle r.0)
  updated-Reach b id a m json e f r h =
      elim (attempt-eq-done m (b, 400) (λ temp. done (push_task b (change temp a), 200)) {c = r}
        h) [
          | inl (g, same) ↦ stay (ap (λ (x : Base d × ℕ). x.0) same)
          | inr (temp, g, same) ↦
              Reach-trans
                (next (next here (copy_visit id a json temp e (f ∙ g) refl))
                  (push [] [] (change temp a) refl refl))
                (stay (ap (λ (x : Base d × ℕ). x.0) (done_inj same)))
        ]

  -- An update of a visit that returns is a run of the system.
  pub update_visit-Reach :
      (b b' : Base d) (id : ℕ) (json : Bytes) (status : ℕ)
      → update_visit libs b id json ≡ done (b', status)
      → Reach libs (idle b) (idle b')
  unfolding update_visit
  update_visit-Reach b b' id json status h = elim (Option-cases (d.find id b.visits)) [
    | inl e ↦
        let h' : ◌≡◌ {A = Run (Base d × ℕ)} (done (b, 404)) (done (b', status)) =
          rw (e, update_visit) at h in
        stay (ap (λ (r : Base d × ℕ). r.0) (done_inj h'))
    | inr (a, e) ↦
        updated-Reach b id a
          (Visit.deserializate_update libs (Visit.copy (b.visit_heap.cell a)) json) json e refl
          (b', status) (rw (e, update_visit) at h)
  ]

  process_all-Reach :
      (b b' : Base d) (l : List Task)
      → process_all b l ≡ done b'
      → Reach libs (record { base = b; in_flight = []; visits_temp = l }) (idle b')
  unfolding process_all
  process_all-Reach b b' [] h = stay (done_inj h)
  process_all-Reach b b' (t ∷ l) h =
      let (b₁, e, g) = bind-eq-done (process b t) (λ x. process_all x l) h in
      Reach-first (work t l b₁ refl e refl) (process_all-Reach b₁ b' l g)

  visit_part-Reach : (b b' : Base d) → visit_part b ≡ done b' → Reach libs (idle b) (idle b')
  unfolding visit_part
  visit_part-Reach b b' h =
      let taken : Base d = record b { tasks = []; data_visit_flag = false } in
      elim (chosen b.data_visit_flag (process_all taken b.tasks) (done b) h) [
        | inl e ↦ Reach-first (take_tasks refl refl) (process_all-Reach taken b' b.tasks e)
        | inr e ↦ stay (done_inj e)
      ]

  -- The visits, their indexes and their queue are the same.
  abbrev pub SameVisits : Base d → Base d → Type 0
  SameVisits b' b =
      (b'.visits ≡ b.visits)
      × (b'.visit_heap ≡ b.visit_heap)
      × (b'.user_visit ≡ b.user_visit)
      × (b'.location_visit ≡ b.location_visit)
      × (b'.tasks ≡ b.tasks)

  pub serializate_users-SameVisits :
      (b : Base d) (l : List ℕ) → SameVisits (serializate_users b l) b
  unfolding serializate_users
  serializate_users-SameVisits b [] = (refl, refl, refl, refl, refl)
  serializate_users-SameVisits b (a ∷ l) =
      serializate_users-SameVisits (record b { user_heap = _ }) l

  pub serializate_locations-SameVisits :
      (b : Base d) (l : List ℕ) → SameVisits (serializate_locations b l) b
  unfolding serializate_locations
  serializate_locations-SameVisits b [] = (refl, refl, refl, refl, refl)
  serializate_locations-SameVisits b (a ∷ l) =
      serializate_locations-SameVisits (record b { location_heap = _ }) l

  pub same-Reach : (b b' : Base d) → SameVisits b' b → Reach libs (idle b) (idle b')
  same-Reach b b' (e, f, g, k, l) = next here (other b' e f g k l refl)

  if-Reach :
      (c : Bool) (b x y : Base d)
      → Reach libs (idle b) (idle x)
      → Reach libs (idle b) (idle y)
      → Reach libs (idle b) (idle (if c then x else y))
  if-Reach true b x y r q = r
  if-Reach false b x y r q = q

  user_part-Reach : (b : Base d) → Reach libs (idle b) (idle (user_part b))
  unfolding user_part
  user_part-Reach b =
      if-Reach b.data_user_flag b _ b
        (same-Reach b _ (
          serializate_users-SameVisits (record b { tasks_user = []; data_user_flag = false })
            b.tasks_user))
        here

  location_part-Reach : (b : Base d) → Reach libs (idle b) (idle (location_part b))
  unfolding location_part
  location_part-Reach b =
      if-Reach b.data_location_flag b _ b
        (same-Reach b _ (
          serializate_locations-SameVisits
            (record b { tasks_location = []; data_location_flag = false }) b.tasks_location))
        here

  -- A round of the worker that returns is a run of the system.
  pub round-Reach : (b b' : Base d) → round b ≡ done b' → Reach libs (idle b) (idle b')
  unfolding round
  round-Reach b b' h =
      let (b₁, e, g) = bind-eq-done (visit_part b) _ h in
      Reach-trans (visit_part-Reach b b₁ e) (
        Reach-trans (user_part-Reach b₁)
          (Reach-trans (location_part-Reach (user_part b₁)) (stay (done_inj g))))
