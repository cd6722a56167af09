-- ===== src/Store/Worker/Invariant.antt =====
-- The first section of `insert` keeps the invariant of the indexes.
use highload_cup.Common.{
  ℕ, ◌≡◌, refl, sym, subst, Bool, true, false, ◌||◌, ◌∷◌, some, arith, ◌==◌, if◌then◌else◌, inl,
  inr, ◌⊎◌,
}
use highload_cup.Store.HashMap.{HashMap}
use highload_cup.Store.Libs.{done}
use highload_cup.Store.Visit.{Visit}
use highload_cup.Store.State.{Base, add, alloc}
use highload_cup.Store.Insert.{place_visit}
use highload_cup.Store.Worker.Index.{added, ==_refl}
use highload_cup.Store.Worker.Steps.{System, waits, Indexed}
use highload_cup.Store.Worker.Growth.{grow-Owns, grow-All, grow-IndexFor}
use highload_cup.Store.Worker.Facts.{
  place_visit-eq-done, inserted_keeps, inserted_adds, taken_same, inserted_new,
}

module _ {d : HashMap} (s : System d) (h : Indexed s) where
  open s use {base, in_flight, visits_temp}

  -- The addresses that wait behind the placement of a visit.
  abbrev waits_too : ℕ → Bool
  waits_too a =
      added a visits_temp
      || (added a base.tasks || (if base.visit_heap.next == a then true else added a in_flight))

  less : (a : ℕ) → waits_too a ≡ false → waits s a ≡ false
  less a e = ground arith

  now_waits : waits_too base.visit_heap.next ≡ true
  now_waits = ground (arith, ==_refl base.visit_heap.next)

  pub placed-Indexed :
      (visit : Visit) (b : Base d)
      → place_visit base visit ≡ done (b, true)
      → Indexed (record s { base = b; in_flight = add base.visit_heap.next ∷ in_flight })
  placed-Indexed visit b e =
      let (vs, inserts, same) = place_visit-eq-done base b visit true e in
      subst (λ x. Indexed (record s { base = x; in_flight = add base.visit_heap.next ∷ in_flight }))
        (sym same) (at vs inserts)
    where
      old :
          (vs : d.Map ℕ)
          → ((j a : ℕ)
              → d.find j vs ≡ some a
              → (d.find j base.visits ≡ some a) ⊎ ((visit.id ≡ j) × (base.visit_heap.next ≡ a)))
          → (j a : ℕ) → d.find j vs ≡ some a
          → waits_too a ≡ false
          → d.find j base.visits ≡ some a
      old vs adds j a f e = elim (adds j a f) [
        | inl o ↦ o
        | inr (_, same) ↦
            let t : waits_too a ≡ true = subst (λ x. waits_too x ≡ true) same now_waits in cc
      ]

      at :
          (vs : d.Map ℕ)
          → d.insert visit.id base.visit_heap.next base.visits ≡ some (vs, true)
          → Indexed (record s {
            base = record base { visits = vs; visit_heap = alloc base.visit_heap visit };
            in_flight = add base.visit_heap.next ∷ in_flight;
          })
      at vs inserts =
          let keeps = inserted_keeps d base.visits vs visit.id base.visit_heap.next true inserts in
          let adds = inserted_adds d base.visits vs visit.id base.visit_heap.next true inserts in
          let grown = grow-All d base.visits vs base.visit_heap visit h.owns keeps adds in
          let index = grow-IndexFor d base.visits vs base.visit_heap visit h.owns keeps adds in
          let new = inserted_new d base.visits vs visit.id base.visit_heap.next true inserts refl in
          record {
            owns = grow-Owns d base.visits vs base.visit_heap visit h.owns keeps adds;
            temp_ok = grown visits_temp h.temp_ok;
            tasks_ok = grown base.tasks h.tasks_ok;
            flight_ok = (rw (==_refl base.visit_heap.next) new, grown in_flight h.flight_ok);
            by_user =
                index (λ v. v.user) (waits s) waits_too base.user_visit less (old vs adds)
                  h.by_user;
            by_location =
                index (λ v. v.location) (waits s) waits_too base.location_visit less (old vs adds)
                  h.by_location;
          }

  pub taken-Indexed :
      (visit : Visit) (b : Base d)
      → place_visit base visit ≡ done (b, false)
      → Indexed (record s { base = b })
  taken-Indexed visit b e =
      let (vs, inserts, same) = place_visit-eq-done base b visit false e in
      subst (λ x. Indexed (record s { base = x })) (sym same) (at vs inserts)
    where
      at :
          (vs : d.Map ℕ)
          → d.insert visit.id base.visit_heap.next base.visits ≡ some (vs, false)
          → Indexed (record s {
            base = record base { visits = vs; visit_heap = alloc base.visit_heap visit };
          })
      at vs inserts =
          let next = base.visit_heap.next in
          let keeps = inserted_keeps d base.visits vs visit.id next false inserts in
          let adds = inserted_adds d base.visits vs visit.id next false inserts in
          let same =
            λ (j a : ℕ). taken_same d base.visits vs visit.id next false inserts j a refl in
          let grown = grow-All d base.visits vs base.visit_heap visit h.owns keeps adds in
          let index = grow-IndexFor d base.visits vs base.visit_heap visit h.owns keeps adds in
          record {
            owns = grow-Owns d base.visits vs base.visit_heap visit h.owns keeps adds;
            temp_ok = grown visits_temp h.temp_ok;
            tasks_ok = grown base.tasks h.tasks_ok;
            flight_ok = grown in_flight h.flight_ok;
            by_user =
                index (λ v. v.user) (waits s) (waits s) base.user_visit (λ a e. e)
                  (λ j a f _. same j a f) h.by_user;
            by_location =
                index (λ v. v.location) (waits s) (waits s) base.location_visit (λ a e. e)
                  (λ j a f _. same j a f) h.by_location;
          }
