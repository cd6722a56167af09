-- ===== src/Store/Worker/Single.antt =====
-- The sets of an index hold no visit twice, whatever steps are behind them.
use highload_cup.Common.{
  ℕ, ◌≡◌, sym, ap, subst, ◌∙◌, true, false, List, [], ◌∷◌, Option, none, some, arith, ◌==◌,
  if◌then◌else◌, Bool-cases, Option-cases, inl, inr,
}
use highload_cup.Store.HashMap.{HashMap}
use highload_cup.Store.Libs.{Libs, Tm, done}
use highload_cup.Store.State.{
  Base, add, change, contains, set_insert, set_erase, or_empty, set_at, construct,
}
use highload_cup.Store.Worker.{add_index, shrink_index, drop_index, move_index}
use highload_cup.Store.Worker.Sets.{contains-set_erase, done_inj, or_abort-eq-done, bind-eq-done}
use highload_cup.Store.Worker.Facts.{
  place_visit-eq-done, process_add-eq-done, process_change-eq-done,
}
use highload_cup.Store.Worker.Steps.{
  System, Step, place, place_taken, copy_visit, push, take_tasks, work, other, Reach, here, next,
}
use highload_cup.Store.Worker.Reached.{started}

-- No visit stands twice.
abbrev pub IsSingle : List ℕ → Type 0
IsSingle [] = Unit
IsSingle (x ∷ s) = (contains x s ≡ false) × IsSingle s

set_insert-IsSingle : (v : ℕ) (s : List ℕ) → IsSingle s → IsSingle (set_insert v s)
set_insert-IsSingle v s h = elim (Bool-cases (contains v s)) [
  | inl e ↦ rw e h
  | inr e ↦ rw e (e, h)
]

set_erase-IsSingle : (v : ℕ) (s : List ℕ) → IsSingle s → IsSingle (set_erase v s)
set_erase-IsSingle v [] h = tt
set_erase-IsSingle v (x ∷ s) (h, k) = elim (Bool-cases (x == v)) [
  | inl e ↦ rw e (set_erase-IsSingle v s k)
  | inr e ↦ rw e (contains-set_erase v x s ∙ ground (arith, h), set_erase-IsSingle v s k)
]

module _ (d : HashMap) where
  abbrev AllSingle : d.Map (List ℕ) → Type 0
  AllSingle m = (k : ℕ) → IsSingle (set_at d k m)

  -- Behind a change at one key.
  changed_at :
      (k : ℕ) (o : Option (List ℕ)) (m m' : d.Map (List ℕ))
      → ((j : ℕ) → d.find j m' ≡ (if k == j then o else d.find j m))
      → IsSingle (or_empty o)
      → AllSingle m
      → AllSingle m'
  changed_at k o m m' found one h j = elim (Bool-cases (k == j)) [
    | inl p ↦ rw (found j, p) one
    | inr p ↦ rw (found j, p) (h j)
  ]

  add_index-AllSingle :
      (k v : ℕ) (m m' : d.Map (List ℕ)) → add_index d k v m ≡ done m' → AllSingle m → AllSingle m'
  unfolding add_index
  add_index-AllSingle k v m m' e h =
      changed_at k (some (set_insert v (set_at d k m))) m m'
        (d.find-assign (List ℕ) k (set_insert v (set_at d k m)) m m' (or_abort-eq-done _ e))
        (set_insert-IsSingle v (set_at d k m) (h k)) h

  shrink_index-AllSingle :
      (k : ℕ) (s s' : List ℕ) (m m' : d.Map (List ℕ))
      → d.find k m ≡ some s
      → IsSingle s'
      → shrink_index d k m s' ≡ done m'
      → AllSingle m
      → AllSingle m'
  unfolding shrink_index
  shrink_index-AllSingle k s [] m m' there one e h =
      changed_at k none m m' (d.find-erase (List ℕ) k m m' (or_abort-eq-done _ e)) tt h
  shrink_index-AllSingle k s (x ∷ rest) m m' there one e h =
      subst AllSingle (done_inj e)
        (changed_at k (some (x ∷ rest)) m _ (d.find-store (List ℕ) k (x ∷ rest) s m there) one h)

  drop_index-AllSingle :
      (k v : ℕ) (m m' : d.Map (List ℕ)) → drop_index d k v m ≡ done m' → AllSingle m → AllSingle m'
  unfolding drop_index
  drop_index-AllSingle k v m m' e h = elim (Option-cases (d.find k m)) [
    | inl absent ↦
        let same : m ≡ m' = done_inj (rw (absent, drop_index) at e) in subst AllSingle same h
    | inr (s, there) ↦
        let one : IsSingle s = subst IsSingle (ap or_empty there) (h k) in
        shrink_index-AllSingle k s (set_erase v s) m m' there (set_erase-IsSingle v s one)
          (rw (there, drop_index) at e) h
  ]

  move_index-AllSingle :
      (old new v : ℕ) (m m' : d.Map (List ℕ))
      → move_index d old new v m ≡ done m'
      → AllSingle m
      → AllSingle m'
  unfolding move_index
  move_index-AllSingle old new v m m' e h = elim (Bool-cases (old == new)) [
    | inl p ↦ let same : m ≡ m' = done_inj (rw (p, move_index) at e) in subst AllSingle same h
    | inr p ↦
        let (m₁, dropped, added) =
          bind-eq-done (drop_index d old v m) (add_index d new v) (rw (p, move_index) at e) in
        add_index-AllSingle new v m₁ m' added (drop_index-AllSingle old v m m₁ dropped h)
  ]

  empty-AllSingle : AllSingle d.empty
  empty-AllSingle k = rw (d.find-empty (List ℕ) k) tt

module _ {d : HashMap} (libs : Libs) where
  abbrev Single : System d → Type 0
  Single s = AllSingle d s.base.user_visit × AllSingle d s.base.location_visit

  -- The indexes are the same.
  same_indexes :
      (b b' : Base d)
      → b'.user_visit ≡ b.user_visit
      → b'.location_visit ≡ b.location_visit
      → AllSingle d b.user_visit × AllSingle d b.location_visit
      → AllSingle d b'.user_visit × AllSingle d b'.location_visit
  same_indexes b b' e f (h, k) = (subst (AllSingle d) (sym e) h, subst (AllSingle d) (sym f) k)

  Step-Single : (s t : System d) → Step libs s t → Single s → Single t
  Step-Single s t (place visit b e same) h =
      let (vs, inserts, there) = place_visit-eq-done s.base b visit true e in
      subst Single (sym same)
        (same_indexes s.base b (ap (λ x. x.user_visit) there) (ap (λ x. x.location_visit) there) h)
  Step-Single s t (place_taken visit b e same) h =
      let (vs, inserts, there) = place_visit-eq-done s.base b visit false e in
      subst Single (sym same)
        (same_indexes s.base b (ap (λ x. x.user_visit) there) (ap (λ x. x.location_visit) there) h)
  Step-Single s t (copy_visit id a json new f e same) h = subst Single (sym same) h
  Step-Single s t (push before after task e same) h = subst Single (sym same) h
  Step-Single s t (take_tasks e same) h = subst Single (sym same) h
  Step-Single s t (work (add a) rest b e p same) (h, k) =
      let (users, locations, f, g, there) = process_add-eq-done s.base b a p in
      subst Single (sym same) (
        subst (λ x. AllSingle d x.user_visit × AllSingle d x.location_visit) (sym there)
          (add_index-AllSingle d _ _ _ users f h, add_index-AllSingle d _ _ _ locations g k))
  Step-Single s t (work (change new a) rest b e p same) (h, k) =
      let (users, locations, f, g, there) = process_change-eq-done s.base b new a p in
      subst Single (sym same) (
        subst (λ x. AllSingle d x.user_visit × AllSingle d x.location_visit) (sym there)
          (move_index-AllSingle d _ _ _ _ users f h, move_index-AllSingle d _ _ _ _ locations g k))
  Step-Single s t (other b e f g k l same) h = subst Single (sym same) (same_indexes s.base b g k h)

  run-Single : {s t : System d} → Reach libs s t → Single s → Single t
  run-Single here h = h
  run-Single (next r step) h = Step-Single _ _ step (run-Single r h)

  -- In every state that is reached from a started process, no set of an index holds a visit twice.
  pub Reach-Single :
      (tm : Tm) (s : System d)
      → Reach libs (started d libs tm) s
      → (k : ℕ)
      → IsSingle (set_at d k s.base.user_visit) × IsSingle (set_at d k s.base.location_visit)
  unfolding started construct
  Reach-Single tm s r k =
      let (h, g) = run-Single r (empty-AllSingle d, empty-AllSingle d) in (h k, g k)
