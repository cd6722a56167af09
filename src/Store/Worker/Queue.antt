-- ===== src/Store/Worker/Queue.antt =====
-- The other steps keep the invariant of the indexes, and so do all runs.
use highload_cup.Common.{
  ℕ, ◌≡◌, refl, sym, ap, subst, ◌∙◌, true, false, ◌||◌, List, [], ◌∷◌, ◌++◌, some, arith, ◌==◌,
  ==_iff, if◌then◌else◌, Bool-cases, inl, inr, All, Bytes,
}
use highload_cup.Store.HashMap.{HashMap}
use highload_cup.Store.Libs.{Libs, done}
use highload_cup.Store.Visit
use highload_cup.Store.Visit.{Visit}
use highload_cup.Store.State.{Base, Task, add, change, write}
use highload_cup.Store.Insert.{push_task}
use highload_cup.Store.Worker.{process}
use highload_cup.Store.Worker.Index.{added, Owns, add-IndexFor, change-IndexFor}
use highload_cup.Store.Worker.Steps.{System, TaskOk, waits, Indexed}
use highload_cup.Store.Worker.Growth.{added-append, IndexFor-waits}
use highload_cup.Store.Worker.Facts.{
  process_add-eq-done, process_change-eq-done, deserializate_update-id,
}

All-split :
    (P : Task → Type 0) (x y : List Task) (t : Task) → All P (x ++ t ∷ y) → P t × All P (x ++ y)
All-split P [] y t (p, h) = (p, h)
All-split P (z ∷ x) y t (q, h) = let (p, r) = All-split P x y t h in (p, (q, r))

All-snoc : (P : Task → Type 0) (x : List Task) (t : Task) → All P x → P t → All P (x ++ t ∷ [])
All-snoc P [] t h p = (p, tt)
All-snoc P (z ∷ x) t (q, h) p = (q, All-snoc P x t h p)

-- An insertion waits where it stood, or behind a queue.
added_moved :
    (a : ℕ) (x y z : List Task) (t : Task)
    → (added a (z ++ t ∷ []) || added a (x ++ y)) ≡ (added a z || added a (x ++ t ∷ y))
added_moved a x y z (add b) =
    ground (arith, added-append a z (add b ∷ []), added-append a x y, added-append a x (add b ∷ y))
added_moved a x y z (change n b) = ground (
  arith,
  added-append a z (change n b ∷ []),
  added-append a x y,
  added-append a x (change n b ∷ y),
)

module _ {d : HashMap} (s : System d) (h : Indexed s) where
  open s use {base, in_flight, visits_temp}

  pub pushed-Indexed :
      (before after : List Task) (task : Task)
      → in_flight ≡ before ++ task ∷ after
      → Indexed (record s { base = push_task base task; in_flight = before ++ after })
  pushed-Indexed before after task e =
      let (ok, rest) =
        All-split (TaskOk d base.visits base.visit_heap) before after task
          (subst (All _) e h.flight_ok) in
      record {
        owns = h.owns;
        temp_ok = h.temp_ok;
        tasks_ok = All-snoc _ base.tasks task h.tasks_ok ok;
        flight_ok = rest;
        by_user = IndexFor-waits d _ _ _ _ _ _ less h.by_user;
        by_location = IndexFor-waits d _ _ _ _ _ _ less h.by_location;
      }
    where
      less :
          (a : ℕ)
          → (added a visits_temp
              || (added a (base.tasks ++ task ∷ []) || added a (before ++ after)))
            ≡ false
          → waits s a ≡ false
      less a w = let same = added_moved a before after base.tasks task in rw (e, ← same) w

  pub took-Indexed :
      visits_temp ≡ []
      → Indexed (record s {
        base = record base { tasks = []; data_visit_flag = false };
        visits_temp = base.tasks;
      })
  took-Indexed e = record {
    owns = h.owns;
    temp_ok = h.tasks_ok;
    tasks_ok = tt;
    flight_ok = h.flight_ok;
    by_user = IndexFor-waits d _ _ _ _ _ _ (λ a w. rw e w) h.by_user;
    by_location = IndexFor-waits d _ _ _ _ _ _ (λ a w. rw e w) h.by_location;
  }

  pub copied-Indexed :
      (libs : Libs) (id a : ℕ) (json : Bytes) (new : Visit)
      → d.find id base.visits ≡ some a
      → Visit.deserializate_update libs (Visit.copy (base.visit_heap.cell a)) json ≡ done new
      → Indexed (record s { in_flight = change new a ∷ in_flight })
  copied-Indexed libs id a json new f e =
      let own = (h.owns id a f).0 in
      let there = subst (λ x. d.find x base.visits ≡ some a) (sym own) f in
      let same = deserializate_update-id libs (Visit.copy (base.visit_heap.cell a)) new json e in
      record {
        owns = h.owns;
        temp_ok = h.temp_ok;
        tasks_ok = h.tasks_ok;
        flight_ok = ((there, same), h.flight_ok);
        by_user = IndexFor-waits d _ _ _ _ _ _ (λ a w. w) h.by_user;
        by_location = IndexFor-waits d _ _ _ _ _ _ (λ a w. w) h.by_location;
      }

  pub added-Indexed :
      (a : ℕ) (rest : List Task) (b : Base d)
      → visits_temp ≡ add a ∷ rest
      → process base (add a) ≡ done b
      → Indexed (record s { base = b; visits_temp = rest })
  added-Indexed a rest b e p =
      let (users, locations, of_users, of_locations, same) = process_add-eq-done base b a p in
      let (there, rest_ok) = subst (All _) e h.temp_ok in
      let behind : (c : ℕ)
          → (if a == c then true else (added c rest || (added c base.tasks || added c in_flight)))
            ≡ false
          → waits s c ≡ false =
        λ c w. rw e (ground arith) in
      subst (λ x. Indexed (record s { base = x; visits_temp = rest })) (sym same)
        record {
          owns = h.owns;
          temp_ok = rest_ok;
          tasks_ok = h.tasks_ok;
          flight_ok = h.flight_ok;
          by_user =
              add-IndexFor d base.visits base.visit_heap h.owns (λ v. v.user) _ a base.user_visit
                users there (IndexFor-waits d _ _ _ _ _ _ behind h.by_user) of_users;
          by_location =
              add-IndexFor d base.visits base.visit_heap h.owns (λ v. v.location) _ a
                base.location_visit locations there
                (IndexFor-waits d _ _ _ _ _ _ behind h.by_location) of_locations;
        }

  pub changed-Indexed :
      (a : ℕ) (new : Visit) (rest : List Task) (b : Base d)
      → visits_temp ≡ change new a ∷ rest
      → process base (change new a) ≡ done b
      → Indexed (record s { base = b; visits_temp = rest })
  changed-Indexed a new rest b e p =
      let (users, locations, of_users, of_locations, same) =
        process_change-eq-done base b new a p in
      let ((there, id), rest_ok) = subst (All _) e h.temp_ok in
      let less : (c : ℕ)
          → (added c rest || (added c base.tasks || added c in_flight)) ≡ false
          → waits s c ≡ false =
        λ c w. rw e w in
      subst (λ x. Indexed (record s { base = x; visits_temp = rest })) (sym same)
        record {
          owns = write-Owns a new id;
          temp_ok = write-All a new id rest rest_ok;
          tasks_ok = write-All a new id base.tasks h.tasks_ok;
          flight_ok = write-All a new id in_flight h.flight_ok;
          by_user =
              change-IndexFor d base.visits base.visit_heap h.owns (λ v. v.user) _ a base.user_visit
                users there new (IndexFor-waits d _ _ _ _ _ _ less h.by_user) of_users;
          by_location =
              change-IndexFor d base.visits base.visit_heap h.owns (λ v. v.location) _ a
                base.location_visit locations there new
                (IndexFor-waits d _ _ _ _ _ _ less h.by_location) of_locations;
        }
    where
      write-id :
          (a : ℕ) (new : Visit) (id : new.id ≡ (base.visit_heap.cell a).id) (c : ℕ)
          → ((write base.visit_heap a new).cell c).id ≡ (base.visit_heap.cell c).id
      write-id a new id c = elim (Bool-cases (a == c)) [
        | inl q ↦ rw q (id ∙ ap (λ x. (base.visit_heap.cell x).id) ((==_iff a c).0 q))
        | inr q ↦ rw q refl
      ]

      write-Owns :
          (a : ℕ) (new : Visit) (id : new.id ≡ (base.visit_heap.cell a).id)
          → Owns d base.visits (write base.visit_heap a new)
      write-Owns a new id j c f = let (own, lt) = h.owns j c f in (write-id a new id c ∙ own, lt)

      write-TaskOk :
          (a : ℕ) (new : Visit) (id : new.id ≡ (base.visit_heap.cell a).id) (t : Task)
          → TaskOk d base.visits base.visit_heap t
          → TaskOk d base.visits (write base.visit_heap a new) t
      write-TaskOk a new id (add c) f =
          subst (λ x. d.find x base.visits ≡ some c) (sym (write-id a new id c)) f
      write-TaskOk a new id (change n c) (f, e) = (
        subst (λ x. d.find x base.visits ≡ some c) (sym (write-id a new id c)) f,
        e ∙ sym (write-id a new id c),
      )

      write-All :
          (a : ℕ) (new : Visit) (id : new.id ≡ (base.visit_heap.cell a).id) (l : List Task)
          → All (TaskOk d base.visits base.visit_heap) l
          → All (TaskOk d base.visits (write base.visit_heap a new)) l
      write-All a new id [] r = tt
      write-All a new id (t ∷ l) (p, r) = (write-TaskOk a new id t p, write-All a new id l r)

  pub other-Indexed :
      (b : Base d)
      → b.visits ≡ base.visits
      → b.visit_heap ≡ base.visit_heap
      → b.user_visit ≡ base.user_visit
      → b.location_visit ≡ base.location_visit
      → b.tasks ≡ base.tasks
      → Indexed (record s { base = b })
  other-Indexed b e f g k l = record {
    owns = rw (e, f) h.owns;
    temp_ok = rw (e, f) h.temp_ok;
    tasks_ok = rw (e, f, l) h.tasks_ok;
    flight_ok = rw (e, f) h.flight_ok;
    by_user = rw (e, f, g, l) h.by_user;
    by_location = rw (e, f, k, l) h.by_location;
  }
