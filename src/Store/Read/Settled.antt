-- ===== src/Store/Read/Settled.antt =====
-- What `get_visits` answers behind calls of the base and a last round of the worker, by the table of
-- visits.
use mathlib.Core.Option.{some-injective}
use highload_cup.Common.{
  arith, ℕ, ◌≡◌, refl, sym, ap, ◌∙◌, true, false, List, [], ◌∷◌, ◌++◌, Option, none, some, ◌↔◌,
  Bytes, codes, All, Bool-cases, Option-cases, inl, inr,
}
use highload_cup.Common.Int.{ℤ, pos, negsuc, ltb_ℤ}
use highload_cup.Store.HashMap.{HashMap}
use highload_cup.Store.Libs.{Libs, Tm, done}
use highload_cup.Store.Location.{Location}
use highload_cup.Store.Visit.{Visit}
use highload_cup.Store.State.{Base, contains, set_at, construct}
use highload_cup.Store.Read.{
  VisitsQuery, skips_visit, visit_object, join, visit_with_location, buffer_loop, get_visits,
}
use highload_cup.Store.Read.Filter.{
  IsOrdered, has_time, IsAnswer, buffer_loop-IsAnswer, buffer_loop-has_time,
}
use highload_cup.Store.Worker.{round}
use highload_cup.Store.Worker.Handlers.{idle, round-Reach, Reach-trans}
use highload_cup.Store.Worker.Caught.{round-tasks}
use highload_cup.Store.Worker.Reached.{started, user_index_settled}
use highload_cup.Store.Cache.Objects.{Request, requests}
use highload_cup.Store.Cache.Runs.{requests-Follows}

same_time : (a b : ℤ) → ltb_ℤ a b ≡ false → ltb_ℤ b a ≡ false → a ≡ b
same_time (pos m) (pos n) h k = let e : m ≡ n = ground arith in rw e refl
same_time (pos m) (negsuc n) h k = ground arith
same_time (negsuc m) (pos n) h k = ground arith
same_time (negsuc m) (negsuc n) h k = let e : m ≡ n = ground arith in rw e refl

-- An entry that has the time.
entry_of :
    {A : Type 0} (P : ℤ × A → Type 0) (t : ℤ) (m : List (ℤ × A))
    → All P m
    → has_time t m ≡ true
    → (x : A) × P (t, x)
entry_of P t [] h e = absurd cc
entry_of P t ((j, y) ∷ m) (p, h) e = elim (Bool-cases (ltb_ℤ t j)) [
  | inl f ↦ entry_of P t m h (rw f at e)
  | inr f ↦ elim (Bool-cases (ltb_ℤ j t)) [
    | inl g ↦ entry_of P t m h (rw (f, g) at e)
    | inr g ↦ (y, rw (same_time t j f g) p)
  ]
]

module _ {d : HashMap} (b : Base d) where
  visit_with_location-find :
      (v : ℕ) (visit : Visit) (location : Location)
      → visit_with_location b v ≡ some (visit, location)
      → (a : ℕ) × (d.find v b.visits ≡ some a) × (b.visit_heap.cell a ≡ visit)
  visit_with_location-find v visit location e = elim (Option-cases (d.find v b.visits)) [
    | inl f ↦
        let e' : ◌≡◌ {A = Option (Visit × Location)} none (some (visit, location)) =
          rw (f, visit_with_location) at e in
        absurd cc
    | inr (a, f) ↦ elim (Option-cases (d.find (b.visit_heap.cell a).location b.locations)) [
      | inl g ↦
          let e' : ◌≡◌ {A = Option (Visit × Location)} none (some (visit, location)) =
            rw (f, g, visit_with_location) at e in
          absurd cc
      | inr (l, g) ↦
          let e' : ◌≡◌ {A = Option (Visit × Location)}
              (some (b.visit_heap.cell a, b.location_heap.cell l)) (some (visit, location)) =
            rw (f, g, visit_with_location) at e in
          (a, f, ap (λ (r : Visit × Location). r.0) (some-injective _ _ e'))
    ]
  ]

  get_visits-set_at :
      (q : VisitsQuery) (id address : ℕ)
      → d.find id b.users ≡ some address
      → get_visits b id q
        ≡ codes "{\"visits\":["
          ++ (join (buffer_loop b q (set_at d id b.user_visit) []) ++ codes "]}")
  unfolding get_visits
  get_visits-set_at q id address e = elim (Option-cases (d.find id b.user_visit)) [
    | inl f ↦ rw (get_visits, e, f) refl
    | inr (ids, f) ↦ rw (get_visits, e, f) refl
  ]

  -- The object is that of a visit of the table with this user and a location, which passes the
  -- tests, and stands under the time of the visit.
  abbrev pub IsVisitOf : VisitsQuery → ℕ → ℤ × Bytes → Type 0
  IsVisitOf q id (k, text) =
      (v : ℕ) × (visit : Visit) × (location : Location) × (visit_with_location b v
        ≡ some (visit, location))
      × (visit.user ≡ id)
      × (skips_visit q visit location ≡ false)
      × (visit.visited_at ≡ k)
      × (text ≡ visit_object visit location)

  -- A visit of the table with this user and a location passes the tests, and has this time.
  abbrev pub IsVisitAt : VisitsQuery → ℕ → ℤ → Type 0
  IsVisitAt q id k =
      (v : ℕ) × (visit : Visit) × (location : Location) × (visit_with_location b v
        ≡ some (visit, location))
      × (visit.user ≡ id)
      × (skips_visit q visit location ≡ false)
      × (visit.visited_at ≡ k)

  module _ (q : VisitsQuery) (id : ℕ) (ids : List ℕ)
      (right : (v : ℕ)
        → contains v ids ≡ true
          ↔ ((a : ℕ) × (d.find v b.visits ≡ some a) × ((b.visit_heap.cell a).user ≡ id))) where
    IsAnswer-IsVisitOf : (e : ℤ × Bytes) → IsAnswer b q ids e → IsVisitOf q id e
    IsAnswer-IsVisitOf (k, text) (v, visit, location, c, f, s, at, same) =
        let (a, g, here) = visit_with_location-find v visit location f in
        let (a', g', user) = (right v).0 c in
        let one : a ≡ a' = some-injective _ _ (sym g ∙ g') in
        (
          v,
          visit,
          location,
          f,
          ap (λ x. x.user) (sym here) ∙ ap (λ x. (b.visit_heap.cell x).user) one ∙ user,
          s,
          sym at,
          same,
        )

    buffer_loop-IsVisitAt : (k : ℤ) → has_time k (buffer_loop b q ids []) ≡ true ↔ IsVisitAt q id k
    buffer_loop-IsVisitAt k = (
      λ h.
          let (all, ordered) = buffer_loop-IsAnswer b q ids ids [] (λ v c. c) tt tt in
          let (text, answer) = entry_of (IsAnswer b q ids) k _ all h in
          let (v, visit, location, f, user, s, at, same) = IsAnswer-IsVisitOf (k, text) answer in
          (v, visit, location, f, user, s, at),
      λ (v, visit, location, f, user, s, at).
          let (a, g, here) = visit_with_location-find v visit location f in
          let c : contains v ids ≡ true = (right v).1 (a, g, ap (λ x. x.user) here ∙ user) in
          ap (λ x. has_time x (buffer_loop b q ids [])) (sym at)
          ∙ buffer_loop-has_time b q ids [] v visit location c f s,
    )

  All-map : {A : Type 0} (P Q : A → Type 0) (m : List A) → ((x : A) → P x → Q x) → All P m → All Q m
  All-map P Q [] f h = tt
  All-map P Q (x ∷ m) f (p, h) = (f x p, All-map P Q m f h)

  -- What the answers are, where the set of the index is right.
  get_visits-right :
      (q : VisitsQuery) (id address : ℕ)
      → d.find id b.users ≡ some address
      → ((v : ℕ)
          → contains v (set_at d id b.user_visit) ≡ true
            ↔ ((a : ℕ) × (d.find v b.visits ≡ some a) × ((b.visit_heap.cell a).user ≡ id)))
      → (entries : List (ℤ × Bytes)) × (get_visits b id q
          ≡ codes "{\"visits\":[" ++ (join entries ++ codes "]}"))
        × IsOrdered entries
        × All (IsVisitOf q id) entries
        × ((k : ℤ) → has_time k entries ≡ true ↔ IsVisitAt q id k)
  get_visits-right q id address e right =
      let ids = set_at d id b.user_visit in
      let (all, ordered) = buffer_loop-IsAnswer b q ids ids [] (λ v c. c) tt tt in
      (
        buffer_loop b q ids [],
        get_visits-set_at q id address e,
        ordered,
        All-map (IsAnswer b q ids) _ _ (IsAnswer-IsVisitOf q id ids right) all,
        buffer_loop-IsVisitAt q id ids right,
      )

module _ {d : HashMap} (libs : Libs) (tm : Tm) where
  -- Behind any sequence of insertions, updates and readings of objects and of rounds of the worker,
  -- each of which returns, and one more round that returns, `get_visits` answers for a user that is
  -- there by the table of visits: the times of the answers grow strictly, each answer is the object
  -- of a visit of the table with that user and a location of the table, which passes the tests of the
  -- query, under the time of the visit, and the times that are answered are exactly the times of such
  -- visits.
  pub get_visits-table :
      (rs : List Request) (b b' : Base d) (q : VisitsQuery) (id address : ℕ)
      → requests libs (construct d libs tm) rs ≡ done b
      → round b ≡ done b'
      → d.find id b'.users ≡ some address
      → (entries : List (ℤ × Bytes)) × (get_visits b' id q
          ≡ codes "{\"visits\":[" ++ (join entries ++ codes "]}"))
        × IsOrdered entries
        × All (IsVisitOf b' q id) entries
        × ((k : ℤ) → has_time k entries ≡ true ↔ IsVisitAt b' q id k)
  unfolding started construct
  get_visits-table rs b b' q id address h e there =
      let (reached, signalled) = requests-Follows libs (construct d libs tm) b rs h in
      let empty = round-tasks libs b b' (signalled (λ off. refl)) e in
      get_visits-right b' q id address there (
        user_index_settled libs tm (idle b') (Reach-trans libs reached (round-Reach libs b b' e))
          (λ a. rw empty refl) id)
