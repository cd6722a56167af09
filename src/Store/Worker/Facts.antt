-- ===== src/Store/Worker/Facts.antt =====
-- What the operations of a step have done when they return.
use highload_cup.Common.{
  ℕ, ◌≡◌, sym, ap, ◌∙◌, Bool, true, false, List, some, arith, ◌==◌, ==_iff, Bool-cases,
  Option-cases, inl, inr, ◌⊎◌, Bytes,
}
use highload_cup.Store.HashMap.{HashMap}
use highload_cup.Store.Libs.{Libs, Run, done, ◌>>=◌}
use highload_cup.Store.Fields.{or_abort}
use highload_cup.Store.Visit
use highload_cup.Store.Visit.{Visit}
use highload_cup.Store.State.{Base, add, change, write, alloc}
use highload_cup.Store.Insert.{place_visit}
use highload_cup.Store.Worker.{add_index, move_index, process}
use highload_cup.Store.Worker.Sets.{bind-eq-done, done_inj, or_abort-eq-done}
use highload_cup.Store.Worker.Index.{==_refl}

-- What placing a visit has done.
pub place_visit-eq-done :
    {d : HashMap} (b b' : Base d) (visit : Visit) (fresh : Bool)
    → place_visit b visit ≡ done (b', fresh)
    → (vs : d.Map ℕ) × (d.insert visit.id b.visit_heap.next b.visits ≡ some (vs, fresh))
      × (b' ≡ record b { visits = vs; visit_heap = alloc b.visit_heap visit })
unfolding place_visit
place_visit-eq-done {d} b b' visit fresh h =
    let (r, e, f) = bind-eq-done (or_abort (d.insert visit.id b.visit_heap.next b.visits)) _ h in
    go r (or_abort-eq-done _ e) f
  where
    go :
        (r : d.Map ℕ × Bool)
        → d.insert visit.id b.visit_heap.next b.visits ≡ some r
        → ◌≡◌ {A = Run (Base d × Bool)}
            (done (record b { visits = r.0; visit_heap = alloc b.visit_heap visit }, r.1))
            (done (b', fresh))
        → (vs : d.Map ℕ) × (d.insert visit.id b.visit_heap.next b.visits ≡ some (vs, fresh))
          × (b' ≡ record b { visits = vs; visit_heap = alloc b.visit_heap visit })
    go (vs, new) e f =
        let same = done_inj f in
        (
          vs,
          e ∙ ap (λ x. some (vs, x)) (ap (λ (x : Base d × Bool). x.1) same),
          sym (ap (λ (x : Base d × Bool). x.0) same),
        )

two_binds :
    {A B C : Type 0} (m : Run A) (n : Run B) (g : A → B → C) {c : C}
    → (m >>= λ a. n >>= λ b. done (g a b)) ≡ done c
    → (a : A) × (b : B) × (m ≡ done a) × (n ≡ done b) × (c ≡ g a b)
two_binds m n g h =
    let (a, e, h') = bind-eq-done m (λ a. n >>= λ b. done (g a b)) h in
    let (b, f, r) = bind-eq-done n (λ b. done (g a b)) h' in (a, b, e, f, sym (done_inj r))

pub process_add-eq-done :
    {d : HashMap} (b b' : Base d) (a : ℕ)
    → process b (add a) ≡ done b'
    → (users locations : d.Map (List ℕ)) × (add_index d
          (b.visit_heap.cell a).user
          (b.visit_heap.cell a).id
          b.user_visit
        ≡ done users)
      × (add_index d (b.visit_heap.cell a).location (b.visit_heap.cell a).id b.location_visit
          ≡ done locations)
      × (b' ≡ record b { user_visit = users; location_visit = locations })
unfolding process
process_add-eq-done {d} b b' a h =
    let v = b.visit_heap.cell a in
    two_binds (add_index d v.user v.id b.user_visit) (add_index d v.location v.id b.location_visit)
      (λ users locations. record b { user_visit = users; location_visit = locations }) h

pub process_change-eq-done :
    {d : HashMap} (b b' : Base d) (new : Visit) (a : ℕ)
    → process b (change new a) ≡ done b'
    → (users locations : d.Map (List ℕ)) × (move_index d
          (b.visit_heap.cell a).user
          new.user
          (b.visit_heap.cell a).id
          b.user_visit
        ≡ done users)
      × (move_index d
            (b.visit_heap.cell a).location
            new.location
            (b.visit_heap.cell a).id
            b.location_visit
          ≡ done locations)
      × (b' ≡ record b {
        user_visit = users;
        location_visit = locations;
        visit_heap = write b.visit_heap a new;
      })
unfolding process
process_change-eq-done {d} b b' new a h =
    let v = b.visit_heap.cell a in
    two_binds (move_index d v.user new.user v.id b.user_visit)
      (move_index d v.location new.location v.id b.location_visit)
      (λ users locations. record b {
        user_visit = users;
        location_visit = locations;
        visit_heap = write b.visit_heap a new;
      })
      h

-- A copy that an update has filled keeps the id.
pub deserializate_update-id :
    (libs : Libs) (this new : Visit) (json : Bytes)
    → Visit.deserializate_update libs this json ≡ done new
    → new.id ≡ this.id
unfolding Visit.deserializate_update
deserializate_update-id libs this new json h = ground arith

module _ (d : HashMap) where
  -- What the table of visits has for an id behind an insertion.
  module _ (visits vs : d.Map ℕ) (id new : ℕ) (fresh : Bool)
      (inserts : d.insert id new visits ≡ some (vs, fresh)) where
    pub inserted_keeps : (j a : ℕ) → d.find j visits ≡ some a → d.find j vs ≡ some a
    inserted_keeps j a f = elim (Bool-cases (id == j)) [
      | inl p ↦
          let there : d.find id visits ≡ some a =
            ap (λ x. d.find x visits) ((==_iff id j).0 p) ∙ f in
          (d.find-insert ℕ id new visits vs fresh inserts).1 j ∙ rw (p, there)
      | inr p ↦ (d.find-insert ℕ id new visits vs fresh inserts).1 j ∙ rw (p, f)
    ]

    pub inserted_adds :
        (j a : ℕ) → d.find j vs ≡ some a → (d.find j visits ≡ some a) ⊎ ((id ≡ j) × (new ≡ a))
    inserted_adds j a f =
        let (flag, found) = d.find-insert ℕ id new visits vs fresh inserts in
        elim (Bool-cases (id == j)) [
          | inl p ↦ elim (Option-cases (d.find id visits)) [
            | inl e ↦
                let g : some new ≡ some a = rw (p, e) at (sym (found j) ∙ f) in
                inr ((==_iff id j).0 p, ground arith)
            | inr (w, e) ↦
                let g : some w ≡ some a = rw (p, e) at (sym (found j) ∙ f) in
                inl (ap (λ x. d.find x visits) (sym ((==_iff id j).0 p)) ∙ e ∙ g)
          ]
          | inr p ↦ inl (rw p at (sym (found j) ∙ f))
        ]

    -- An id that was taken keeps its visit.
    pub taken_same : (j a : ℕ) → fresh ≡ false → d.find j vs ≡ some a → d.find j visits ≡ some a
    taken_same j a e f =
        let (flag, found) = d.find-insert ℕ id new visits vs fresh inserts in
        elim (Bool-cases (id == j)) [
          | inl p ↦ elim (Option-cases (d.find id visits)) [
            | inl n ↦ let flag' : fresh ≡ true = rw n at flag in cc
            | inr (w, n) ↦
                let g : some w ≡ some a = rw (p, n) at (sym (found j) ∙ f) in
                ap (λ x. d.find x visits) (sym ((==_iff id j).0 p)) ∙ n ∙ g
          ]
          | inr p ↦ rw p at (sym (found j) ∙ f)
        ]

    pub inserted_new : fresh ≡ true → d.find id vs ≡ some new
    inserted_new e =
        let (flag, found) = d.find-insert ℕ id new visits vs fresh inserts in
        elim (Option-cases (d.find id visits)) [
          | inl n ↦ found id ∙ rw (==_refl id, n)
          | inr (w, n) ↦ let flag' : fresh ≡ false = rw n at flag in cc
        ]
