-- ===== src/Store/Worker/Fresh.antt =====
-- A round of the worker keeps the texts of the users and the locations right.
use highload_cup.Common.{
  ℕ, ◌≡◌, sym, ap, subst, Bool, true, false, List, [], ◌∷◌, if◌then◌else◌, inl, inr,
}
use highload_cup.Store.HashMap.{HashMap}
use highload_cup.Store.Libs.{done}
use highload_cup.Store.State.{Base, Task, add, change, write}
use highload_cup.Store.Worker.{
  process, process_all, visit_part, user_part, location_part, serializate_users,
  serializate_locations, round,
}
use highload_cup.Store.Worker.Sets.{bind-eq-done, done_inj}
use highload_cup.Store.Worker.Facts.{process_add-eq-done, process_change-eq-done}
use highload_cup.Store.Worker.Handlers.{chosen}
use highload_cup.Store.Cache.{
  IsFreshUser, IsFreshLocation, AllCells, write-AllCells, user-serializate, location-serializate,
}

-- Every object of the two heaps has no text, or the right one.
abbrev pub Cached : {d : HashMap} → Base d → Type 0
Cached b = AllCells IsFreshUser b.user_heap × AllCells IsFreshLocation b.location_heap

module _ {d : HashMap} where
  pub same-Cached :
      (b b' : Base d)
      → b'.user_heap ≡ b.user_heap
      → b'.location_heap ≡ b.location_heap
      → Cached b
      → Cached b'
  same-Cached b b' e f (h, k) =
      (subst (AllCells IsFreshUser) (sym e) h, subst (AllCells IsFreshLocation) (sym f) k)

  pub moved-Cached : {b b' : Base d} → b ≡ b' → Cached b → Cached b'
  moved-Cached e h = subst (λ x. Cached x) e h

  process-Cached : (b b' : Base d) (t : Task) → process b t ≡ done b' → Cached b → Cached b'
  process-Cached b b' (add a) e h =
      let (users, locations, f, g, same) = process_add-eq-done b b' a e in
      same-Cached b b' (ap (λ x. x.user_heap) same) (ap (λ x. x.location_heap) same) h
  process-Cached b b' (change new a) e h =
      let (users, locations, f, g, same) = process_change-eq-done b b' new a e in
      same-Cached b b' (ap (λ x. x.user_heap) same) (ap (λ x. x.location_heap) same) h

  process_all-Cached :
      (b b' : Base d) (l : List Task) → process_all b l ≡ done b' → Cached b → Cached b'
  unfolding process_all
  process_all-Cached b b' [] e h = moved-Cached (done_inj e) h
  process_all-Cached b b' (t ∷ l) e h =
      let (b₁, f, g) = bind-eq-done (process b t) (λ x. process_all x l) e in
      process_all-Cached b₁ b' l g (process-Cached b b₁ t f h)

  visit_part-Cached : (b b' : Base d) → visit_part b ≡ done b' → Cached b → Cached b'
  unfolding visit_part
  visit_part-Cached b b' e h =
      let taken : Base d = record b { tasks = []; data_visit_flag = false } in
      elim (chosen b.data_visit_flag (process_all taken b.tasks) (done b) e) [
        | inl f ↦ process_all-Cached taken b' b.tasks f h
        | inr f ↦ moved-Cached (done_inj f) h
      ]

  users-Cached : (b : Base d) (l : List ℕ) → Cached b → Cached (serializate_users b l)
  unfolding serializate_users
  users-Cached b [] h = h
  users-Cached b (a ∷ l) (h, k) =
      users-Cached (record b { user_heap = write b.user_heap a _ }) l
        (
          write-AllCells IsFreshUser b.user_heap _ h
              (user-serializate (b.user_heap.cell a) true (h a)).1 a,
          k,
        )

  locations-Cached : (b : Base d) (l : List ℕ) → Cached b → Cached (serializate_locations b l)
  unfolding serializate_locations
  locations-Cached b [] h = h
  locations-Cached b (a ∷ l) (h, k) =
      locations-Cached (record b { location_heap = write b.location_heap a _ }) l
        (
          h,
          write-AllCells IsFreshLocation b.location_heap _ k
              (location-serializate (b.location_heap.cell a) true (k a)).1 a,
        )

  if-Cached : (c : Bool) (x y : Base d) → Cached x → Cached y → Cached (if c then x else y)
  if-Cached true x y h k = h
  if-Cached false x y h k = k

  pub round-Cached : (b b' : Base d) → round b ≡ done b' → Cached b → Cached b'
  unfolding round user_part location_part
  round-Cached b b' e h =
      let (b₁, f, g) = bind-eq-done (visit_part b) _ e in
      let h₁ = visit_part-Cached b b₁ f h in
      let h₂ : Cached (user_part b₁) =
        if-Cached b₁.data_user_flag _ b₁ (users-Cached _ b₁.tasks_user h₁) h₁ in
      moved-Cached (done_inj g) (
        if-Cached (user_part b₁).data_location_flag _ (user_part b₁)
          (locations-Cached _ (user_part b₁).tasks_location h₂) h₂)
