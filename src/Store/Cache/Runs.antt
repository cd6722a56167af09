-- ===== src/Store/Cache/Runs.antt =====
-- The calls of the base and the rounds of the worker as runs of the system of steps, each of which
-- keeps the flag of the queue of visits.
use highload_cup.Common.{
  ℕ, ◌≡◌, refl, sym, subst, Bool, true, false, not, List, [], ◌∷◌, if◌then◌else◌, Option, none,
  some, Option-cases, inl, inr, Bytes, codes, bytes_eq,
}
use highload_cup.Store.HashMap.{HashMap}
use highload_cup.Store.Libs.{Libs, Run, done}
use highload_cup.Store.Fields.{or_abort}
use highload_cup.Store.User
use highload_cup.Store.Location
use highload_cup.Store.State.{Base, write}
use highload_cup.Store.Insert.{push_user, push_location, insert_user, insert_location, insert}
use highload_cup.Store.Update.{update_user, update_location, update}
use highload_cup.Store.Read.{get_object}
use highload_cup.Store.Worker.Sets.{bind-eq-done, done_inj}
use highload_cup.Store.Worker.Steps.{Reach, here}
use highload_cup.Store.Worker.Handlers.{
  SameVisits, attempt-eq-done, chosen, idle, same-Reach, insert_visit-Reach, update_visit-Reach,
  round-Reach, Reach-trans,
}
use highload_cup.Store.Worker.Caught.{
  Signalled, same-Signalled, insert_visit-Signalled, update_visit-Signalled, round-Signalled,
}
use highload_cup.Store.Cache.Objects.{
  Request, insertion, change_of, reading, worker_round, request, requests, get_object-read,
  read_user, read_location, read_visit,
}

module _ {d : HashMap} (libs : Libs) where
  -- The second base is reached from the first, and its flag still tells of its queue.
  abbrev pub Follows : Base d → Base d → Type 0
  Follows b b' = Reach libs (idle b) (idle b') × (Signalled b → Signalled b')

  -- What a call leaves behind a base.
  abbrev Leaves : {R : Type 0} → Base d → (Base d × R) → Type 0
  Leaves b r = Follows b r.0

  unmoved : (b : Base d) → Follows b b
  unmoved b = (here, λ h. h)

  other_part :
      (b b' : Base d) → SameVisits libs b' b → b'.data_visit_flag ≡ b.data_visit_flag → Follows b b'
  other_part b b' same flag = (same-Reach libs b b' same, same-Signalled b b' flag same.4)

  if-Leaves :
      {R : Type 0} (b : Base d) (c : Bool) (x y : Base d × R)
      → Leaves b x
      → Leaves b y
      → Leaves b (if c then x else y)
  if-Leaves b true x y h k = h
  if-Leaves b false x y h k = k

  insert_user-Leaves :
      (b : Base d) (json : Bytes) (r : Base d × Bool)
      → insert_user libs b json ≡ done r
      → Leaves b r
  unfolding insert_user
  insert_user-Leaves b json r e =
      elim (attempt-eq-done (User.deserializate libs json) (b, false) _ e) [
        | inl (f, same) ↦ subst (Leaves b) same (unmoved b)
        | inr (user, f, g) ↦
            let ((users, inserted), p, q) =
              bind-eq-done (or_abort (d.insert user.id b.user_heap.next b.users)) _ g in
            subst (Leaves b) (done_inj q) (
              if-Leaves b (not inserted) _ _ (other_part b _ (refl, refl, refl, refl, refl) refl)
                (other_part b _ (refl, refl, refl, refl, refl) refl))
      ]

  insert_location-Leaves :
      (b : Base d) (json : Bytes) (r : Base d × Bool)
      → insert_location libs b json ≡ done r
      → Leaves b r
  unfolding insert_location
  insert_location-Leaves b json r e =
      elim (attempt-eq-done (Location.deserializate libs json) (b, false) _ e) [
        | inl (f, same) ↦ subst (Leaves b) same (unmoved b)
        | inr (location, f, g) ↦
            let ((locations, inserted), p, q) =
              bind-eq-done (or_abort (d.insert location.id b.location_heap.next b.locations)) _ g in
            subst (Leaves b) (done_inj q) (
              if-Leaves b (not inserted) _ _ (other_part b _ (refl, refl, refl, refl, refl) refl)
                (other_part b _ (refl, refl, refl, refl, refl) refl))
      ]

  update_user-Leaves :
      (b : Base d) (id : ℕ) (json : Bytes) (r : Base d × ℕ)
      → update_user libs b id json ≡ done r
      → Leaves b r
  unfolding update_user
  update_user-Leaves b id json r e = elim (Option-cases (d.find id b.users)) [
    | inl f ↦
        let e' : ◌≡◌ {A = Run (Base d × ℕ)} (done (b, 404)) (done r) = rw (f, update_user) at e in
        subst (Leaves b) (done_inj e') (unmoved b)
    | inr (a, f) ↦
        elim (attempt-eq-done (User.deserializate_update libs (User.copy (b.user_heap.cell a)) json)
          (b, 400)
          (λ temp. done (
            push_user
                (record b { user_heap = write b.user_heap a (User.move (b.user_heap.cell a) temp) })
                a,
            200,
          ))
          {c = r} (rw (f, update_user) at e)) [
            | inl (g, same) ↦ subst (Leaves b) same (unmoved b)
            | inr (temp, g, same) ↦
                subst (Leaves b) (done_inj same)
                  (other_part b _ (refl, refl, refl, refl, refl) refl)
          ]
  ]

  update_location-Leaves :
      (b : Base d) (id : ℕ) (json : Bytes) (r : Base d × ℕ)
      → update_location libs b id json ≡ done r
      → Leaves b r
  unfolding update_location
  update_location-Leaves b id json r e = elim (Option-cases (d.find id b.locations)) [
    | inl f ↦
        let e' : ◌≡◌ {A = Run (Base d × ℕ)} (done (b, 404)) (done r) =
          rw (f, update_location) at e in
        subst (Leaves b) (done_inj e') (unmoved b)
    | inr (a, f) ↦
        elim (attempt-eq-done
          (Location.deserializate_update libs (Location.copy (b.location_heap.cell a)) json)
          (b, 400)
          (λ temp. done (
            push_location
                (record b {
                  location_heap =
                      write b.location_heap a (Location.move (b.location_heap.cell a) temp);
                })
                a,
            200,
          ))
          {c = r} (rw (f, update_location) at e)) [
            | inl (g, same) ↦ subst (Leaves b) same (unmoved b)
            | inr (temp, g, same) ↦
                subst (Leaves b) (done_inj same)
                  (other_part b _ (refl, refl, refl, refl, refl) refl)
          ]
  ]

  insert-Leaves :
      (b : Base d) (name json : Bytes) (r : Base d × Bool)
      → insert libs b name json ≡ done r
      → Leaves b r
  unfolding insert
  insert-Leaves b name json r e = elim (chosen (bytes_eq name (codes "users")) _ _ e) [
    | inl f ↦ insert_user-Leaves b json r f
    | inr f ↦ elim (chosen (bytes_eq name (codes "visits")) _ _ f) [
      | inl g ↦
          (insert_visit-Reach libs b r.0 json r.1 g, insert_visit-Signalled libs b r.0 json r.1 g)
      | inr g ↦ elim (chosen (bytes_eq name (codes "locations")) _ _ g) [
        | inl i ↦ insert_location-Leaves b json r i
        | inr i ↦ subst (Leaves b) (done_inj i) (unmoved b)
      ]
    ]
  ]

  update-Leaves :
      (b : Base d) (id : ℕ) (name json : Bytes) (r : Base d × ℕ)
      → update libs b id name json ≡ done r
      → Leaves b r
  unfolding update
  update-Leaves b id name json r e = elim (chosen (bytes_eq name (codes "users")) _ _ e) [
    | inl f ↦ update_user-Leaves b id json r f
    | inr f ↦ elim (chosen (bytes_eq name (codes "visits")) _ _ f) [
      | inl g ↦ (
        update_visit-Reach libs b r.0 id json r.1 g,
        update_visit-Signalled libs b r.0 id json r.1 g,
      )
      | inr g ↦ elim (chosen (bytes_eq name (codes "locations")) _ _ g) [
        | inl i ↦ update_location-Leaves b id json r i
        | inr i ↦ subst (Leaves b) (done_inj i) (unmoved b)
      ]
    ]
  ]

  read_user-Leaves : (b : Base d) (o : Option ℕ) → Leaves b (read_user b o)
  read_user-Leaves b none = unmoved b
  read_user-Leaves b (some a) = other_part b _ (refl, refl, refl, refl, refl) refl

  read_location-Leaves : (b : Base d) (o : Option ℕ) → Leaves b (read_location b o)
  read_location-Leaves b none = unmoved b
  read_location-Leaves b (some a) = other_part b _ (refl, refl, refl, refl, refl) refl

  read_visit-Leaves : (b : Base d) (o : Option ℕ) → Leaves b (read_visit b o)
  read_visit-Leaves b none = unmoved b
  read_visit-Leaves b (some a) = unmoved b

  get_object-Leaves : (b : Base d) (name : Bytes) (id : ℕ) → Leaves b (get_object b name id)
  get_object-Leaves b name id = subst (Leaves b) (sym (get_object-read b name id)) (
      if-Leaves b (bytes_eq name (codes "users")) _ _ (read_user-Leaves b _) (
        if-Leaves b (bytes_eq name (codes "visits")) _ _ (read_visit-Leaves b _) (
          if-Leaves b (bytes_eq name (codes "locations")) _ _ (read_location-Leaves b _)
            (unmoved b))))

  request-Follows : (b b' : Base d) (r : Request) → request libs b r ≡ done b' → Follows b b'
  unfolding request
  request-Follows b b' (insertion name json) e =
      let (x, f, g) = bind-eq-done (insert libs b name json) (λ r. done r.0) e in
      subst (Follows b) (done_inj g) (insert-Leaves b name json x f)
  request-Follows b b' (change_of id name json) e =
      let (x, f, g) = bind-eq-done (update libs b id name json) (λ r. done r.0) e in
      subst (Follows b) (done_inj g) (update-Leaves b id name json x f)
  request-Follows b b' (reading name id) e =
      subst (Follows b) (done_inj e) (get_object-Leaves b name id)
  request-Follows b b' worker_round e =
      (round-Reach libs b b' e, λ h. round-Signalled libs b b' h e)

  -- What follows by requests that return, follows.
  pub requests-Follows :
      (b b' : Base d) (rs : List Request) → requests libs b rs ≡ done b' → Follows b b'
  unfolding requests
  requests-Follows b b' [] e = subst (Follows b) (done_inj e) (unmoved b)
  requests-Follows b b' (r ∷ rs) e =
      let (x, f, g) = bind-eq-done (request libs b r) (λ y. requests libs y rs) e in
      let (first, on) = request-Follows b x r f in
      let (rest, off) = requests-Follows x b' rs g in (Reach-trans libs first rest, λ h. off (on h))
