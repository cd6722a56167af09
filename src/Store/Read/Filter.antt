-- ===== src/Store/Read/Filter.antt =====
-- What `get_visits` answers: the visits of the user that pass the tests, by the time of the visit.
use highload_cup.Common.{
  ℕ, ◌≡◌, refl, ap, ◌∙◌, Bool, true, false, not, ◌&&◌, List, [], ◌∷◌, ◌++◌, Option, none, some,
  arith, if◌then◌else◌, Bytes, codes, All, Bool-cases, inl, inr, ◌==◌, ==_iff,
}
use highload_cup.Common.Int.{ℤ, ltb_ℤ}
use highload_cup.Store.HashMap.{HashMap}
use highload_cup.Store.Location.{Location}
use highload_cup.Store.Visit.{Visit}
use highload_cup.Store.State.{Base, contains}
use highload_cup.Store.Read.{
  VisitsQuery, skips_visit, visit_object, ordered_insert, join, visit_with_location, buffer_visit,
  buffer_loop, get_visits,
}

ltb_ℤ_trans : (a b c : ℤ) → ltb_ℤ a b ≡ true → ltb_ℤ b c ≡ true → ltb_ℤ a c ≡ true
ltb_ℤ_trans a b c h k = ground arith

-- The keys grow strictly.
abbrev pub IsOrdered : {A : Type 0} → List (ℤ × A) → Type 0
IsOrdered [] = Unit
IsOrdered ((k, x) ∷ m) = All (λ e. ltb_ℤ k e.0 ≡ true) m × IsOrdered m

-- Some entry has the time, neither before nor behind it.
abbrev pub has_time : {A : Type 0} → ℤ → List (ℤ × A) → Bool
has_time k [] = false
has_time k ((j, y) ∷ m) = if not (ltb_ℤ k j) && not (ltb_ℤ j k) then true else has_time k m

All-ordered_insert :
    {A : Type 0} (P : ℤ × A → Type 0) (k : ℤ) (x : A) (m : List (ℤ × A))
    → P (k, x)
    → All P m
    → All P (ordered_insert k x m)
All-ordered_insert P k x [] p h = (p, tt)
All-ordered_insert P k x ((j, y) ∷ m) p (q, h) = elim (Bool-cases (ltb_ℤ k j)) [
  | inl e ↦ rw e (p, (q, h))
  | inr e ↦ elim (Bool-cases (ltb_ℤ j k)) [
    | inl f ↦ rw (e, f) (q, All-ordered_insert P k x m p h)
    | inr f ↦ rw (e, f) (q, h)
  ]
]

All-later :
    {A : Type 0} (k j : ℤ) (m : List (ℤ × A))
    → ltb_ℤ k j ≡ true
    → All (λ e. ltb_ℤ j e.0 ≡ true) m
    → All (λ e. ltb_ℤ k e.0 ≡ true) m
All-later k j [] h p = tt
All-later k j ((i, y) ∷ m) h (q, p) = (ltb_ℤ_trans k j i h q, All-later k j m h p)

ordered_insert-IsOrdered :
    {A : Type 0} (k : ℤ) (x : A) (m : List (ℤ × A)) → IsOrdered m → IsOrdered (ordered_insert k x m)
ordered_insert-IsOrdered k x [] h = (tt, tt)
ordered_insert-IsOrdered k x ((j, y) ∷ m) (p, h) = elim (Bool-cases (ltb_ℤ k j)) [
  | inl e ↦ rw e ((e, All-later k j m e p), (p, h))
  | inr e ↦ elim (Bool-cases (ltb_ℤ j k)) [
    | inl f ↦
        rw (e, f)
          (All-ordered_insert (λ r. ltb_ℤ j r.0 ≡ true) k x m f p, ordered_insert-IsOrdered k x m h)
    | inr f ↦ rw (e, f) (p, h)
  ]
]

has_time-ordered_insert :
    {A : Type 0} (k : ℤ) (x : A) (m : List (ℤ × A)) → has_time k (ordered_insert k x m) ≡ true
has_time-ordered_insert k x [] = ground arith
has_time-ordered_insert k x ((j, y) ∷ m) = ground (arith, has_time-ordered_insert k x m)

has_time_kept :
    {A : Type 0} (t k : ℤ) (x : A) (m : List (ℤ × A))
    → has_time t m ≡ true
    → has_time t (ordered_insert k x m) ≡ true
has_time_kept t k x [] h = cc
has_time_kept t k x ((j, y) ∷ m) h = ground (arith, has_time_kept t k x m)

module _ {d : HashMap} (b : Base d) (q : VisitsQuery) where
  -- An entry is the object of a visit of the set that has a location and passes the tests, under
  -- the time of the visit.
  abbrev pub IsAnswer : List ℕ → ℤ × Bytes → Type 0
  IsAnswer ids (k, text) =
      (v : ℕ) × (visit : Visit) × (location : Location) × (contains v ids ≡ true)
      × (visit_with_location b v ≡ some (visit, location))
      × (skips_visit q visit location ≡ false)
      × (k ≡ visit.visited_at)
      × (text ≡ visit_object visit location)

  buffer_visit-IsAnswer :
      (all : List ℕ) (v : ℕ) (o : Option (Visit × Location)) (buffer : List (ℤ × Bytes))
      → contains v all ≡ true
      → visit_with_location b v ≡ o
      → All (IsAnswer all) buffer
      → IsOrdered buffer
      → All (IsAnswer all) (buffer_visit q o buffer) × IsOrdered (buffer_visit q o buffer)
  buffer_visit-IsAnswer all v none buffer here e h k = (h, k)
  buffer_visit-IsAnswer all v (some (visit, location)) buffer here e h k =
      elim (Bool-cases (skips_visit q visit location)) [
        | inl s ↦ rw s (h, k)
        | inr s ↦ rw s (
          All-ordered_insert (IsAnswer all) visit.visited_at (visit_object visit location) buffer
              (v, visit, location, here, e, s, refl, refl) h,
          ordered_insert-IsOrdered visit.visited_at (visit_object visit location) buffer k,
        )
      ]

  pub buffer_loop-IsAnswer :
      (all ids : List ℕ) (buffer : List (ℤ × Bytes))
      → ((v : ℕ) → contains v ids ≡ true → contains v all ≡ true)
      → All (IsAnswer all) buffer
      → IsOrdered buffer
      → All (IsAnswer all) (buffer_loop b q ids buffer) × IsOrdered (buffer_loop b q ids buffer)
  buffer_loop-IsAnswer all [] buffer sub h k = (h, k)
  buffer_loop-IsAnswer all (v ∷ ids) buffer sub h k =
      let (h', k') =
        buffer_visit-IsAnswer all v (visit_with_location b v) buffer (sub v (ground arith)) refl h
          k in
      buffer_loop-IsAnswer all ids (buffer_visit q (visit_with_location b v) buffer)
        (λ w c. sub w (ground arith)) h' k'

  buffer_visit_kept :
      (t : ℤ) (o : Option (Visit × Location)) (buffer : List (ℤ × Bytes))
      → has_time t buffer ≡ true
      → has_time t (buffer_visit q o buffer) ≡ true
  buffer_visit_kept t none buffer h = h
  buffer_visit_kept t (some (visit, location)) buffer h =
      elim (Bool-cases (skips_visit q visit location)) [
        | inl s ↦ rw s h
        | inr s ↦ rw s (has_time_kept t visit.visited_at (visit_object visit location) buffer h)
      ]

  buffer_loop_kept :
      (t : ℤ) (ids : List ℕ) (buffer : List (ℤ × Bytes))
      → has_time t buffer ≡ true
      → has_time t (buffer_loop b q ids buffer) ≡ true
  buffer_loop_kept t [] buffer h = h
  buffer_loop_kept t (v ∷ ids) buffer h =
      buffer_loop_kept t ids (buffer_visit q (visit_with_location b v) buffer)
        (buffer_visit_kept t (visit_with_location b v) buffer h)

  pub buffer_loop-has_time :
      (ids : List ℕ) (buffer : List (ℤ × Bytes)) (v : ℕ) (visit : Visit) (location : Location)
      → contains v ids ≡ true
      → visit_with_location b v ≡ some (visit, location)
      → skips_visit q visit location ≡ false
      → has_time visit.visited_at (buffer_loop b q ids buffer) ≡ true
  buffer_loop-has_time [] buffer v visit location c e s = cc
  buffer_loop-has_time (w ∷ ids) buffer v visit location c e s = elim (Bool-cases (w == v)) [
    | inl p ↦
        let same = (==_iff w v).0 p in
        let at_w : visit_with_location b w ≡ some (visit, location) =
          ap (λ x. visit_with_location b x) same ∙ e in
        buffer_loop_kept visit.visited_at ids (buffer_visit q (visit_with_location b w) buffer)
          (placed (visit_with_location b w) at_w)
    | inr p ↦
        buffer_loop-has_time ids (buffer_visit q (visit_with_location b w) buffer) v visit location
          (rw p at c) e s
  ]
    where
      placed :
          (o : Option (Visit × Location))
          → o ≡ some (visit, location)
          → has_time visit.visited_at (buffer_visit q o buffer) ≡ true
      placed o f =
          rw (f, s) (has_time-ordered_insert visit.visited_at (visit_object visit location) buffer)

  -- For a user that is there and has a set in the index, `get_visits` answers the objects of
  -- `buffer_loop`: their times grow strictly, and each is the object of a visit of the set that has a
  -- location and passes the tests of the query, under the time of that visit.
  pub get_visits-IsAnswer :
      (id address : ℕ) (ids : List ℕ)
      → d.find id b.users ≡ some address
      → d.find id b.user_visit ≡ some ids
      → (get_visits b id q ≡ codes "{\"visits\":[" ++ (join (buffer_loop b q ids []) ++ codes "]}"))
        × IsOrdered (buffer_loop b q ids [])
        × All (IsAnswer ids) (buffer_loop b q ids [])
  unfolding get_visits
  get_visits-IsAnswer id address ids e f =
      let (h, k) = buffer_loop-IsAnswer ids ids [] (λ v c. c) tt tt in
      (rw (get_visits, e, f) refl, k, h)

  -- For every visit of the user's set that has a location and passes the tests of the query, the time
  -- of that visit is among the times that `get_visits` answers: of several visits with one time one
  -- is answered.
  pub get_visits-has_time :
      (id address : ℕ) (ids : List ℕ) (v : ℕ) (visit : Visit) (location : Location)
      → d.find id b.users ≡ some address
      → d.find id b.user_visit ≡ some ids
      → contains v ids ≡ true
      → visit_with_location b v ≡ some (visit, location)
      → skips_visit q visit location ≡ false
      → (get_visits b id q ≡ codes "{\"visits\":[" ++ (join (buffer_loop b q ids []) ++ codes "]}"))
        × (has_time visit.visited_at (buffer_loop b q ids []) ≡ true)
  get_visits-has_time id address ids v visit location e f c g s = (
    (get_visits-IsAnswer id address ids e f).0,
    buffer_loop-has_time ids [] v visit location c g s,
  )
