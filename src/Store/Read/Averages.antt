-- ===== src/Store/Read/Averages.antt =====
-- What `get_mark` answers behind calls of the base and a last round of the worker, by the table of
-- visits.
use mathlib.Core.List.{foldl}
use highload_cup.Common.{
  ℕ, ◌≡◌, refl, true, List, ◌++◌, Option-cases, some, ◌↔◌, inl, inr, codes, length,
}
use highload_cup.Store.HashMap.{HashMap}
use highload_cup.Store.Libs.{Libs, Tm, done}
use highload_cup.Store.State.{Base, contains, set_at, construct}
use highload_cup.Store.Read.{MarkQuery, average, get_mark}
use highload_cup.Store.Read.Marks.{marks, get_mark-average}
use highload_cup.Store.Worker.{round}
use highload_cup.Store.Worker.Handlers.{idle, round-Reach, Reach-trans}
use highload_cup.Store.Worker.Caught.{round-tasks}
use highload_cup.Store.Worker.Reached.{started, location_index_settled}
use highload_cup.Store.Worker.Single.{IsSingle, Reach-Single}
use highload_cup.Store.Cache.Objects.{Request, requests}
use highload_cup.Store.Cache.Runs.{requests-Follows}

module _ {d : HashMap} (libs : Libs) where
  get_mark-set_at :
      (b : Base d) (q : MarkQuery) (id address : ℕ)
      → d.find id b.locations ≡ some address
      → get_mark libs b id q
        ≡ codes "{\"avg\": "
          ++ average libs (
            length (marks libs b q (set_at d id b.location_visit)),
            foldl libs.add_mark libs.zero_mark (marks libs b q (set_at d id b.location_visit)),
          )
  unfolding get_mark
  get_mark-set_at b q id address e = elim (Option-cases (d.find id b.location_visit)) [
    | inl f ↦ rw (get_mark, e, f) refl
    | inr (ids, f) ↦ rw f (get_mark-average libs b q id address ids e f)
  ]

  -- Behind any sequence of insertions, updates and readings of objects and of rounds of the worker,
  -- each of which returns, and one more round that returns, `get_mark` answers for a location that is
  -- there by the table of visits: of a list that has each visit of the table with that location once,
  -- and no other id, it is the average of the marks of those that are there with their user and pass
  -- the tests of the query, and 0 if there are none.
  pub get_mark-table :
      (tm : Tm) (rs : List Request) (b b' : Base d) (q : MarkQuery) (id address : ℕ)
      → requests libs (construct d libs tm) rs ≡ done b
      → round b ≡ done b'
      → d.find id b'.locations ≡ some address
      → (ids : List ℕ) × IsSingle ids
        × ((v : ℕ)
            → contains v ids ≡ true
              ↔ ((a : ℕ) × (d.find v b'.visits ≡ some a) × ((b'.visit_heap.cell a).location ≡ id)))
        × (get_mark libs b' id q
            ≡ codes "{\"avg\": "
              ++ average libs (
                length (marks libs b' q ids),
                foldl libs.add_mark libs.zero_mark (marks libs b' q ids),
              ))
  unfolding started construct
  get_mark-table tm rs b b' q id address h e there =
      let (reached, signalled) = requests-Follows libs (construct d libs tm) b rs h in
      let empty = round-tasks libs b b' (signalled (λ off. refl)) e in
      let run = Reach-trans libs reached (round-Reach libs b b' e) in
      (
        set_at d id b'.location_visit,
        (Reach-Single libs tm (idle b') run id).1,
        location_index_settled libs tm (idle b') run (λ a. rw empty refl) id,
        get_mark-set_at b' q id address there,
      )
