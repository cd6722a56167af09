-- ===== src/Store/Read/Marks.antt =====
-- The average that `get_mark` answers.
use mathlib.Core.List.{foldl}
use highload_cup.Common.{
  arith, ℕ, ◌+◌, ◌≡◌, refl, ap, ◌∙◌, List, [], ◌∷◌, ◌++◌, Option, none, some, if◌then◌else◌,
  Bool-cases, inl, inr, codes, length,
}
use highload_cup.Store.HashMap.{HashMap}
use highload_cup.Store.Libs.{Libs}
use highload_cup.Store.User.{User}
use highload_cup.Store.Visit.{Visit}
use highload_cup.Store.State.{Base}
use highload_cup.Store.Read.{
  MarkQuery, visit_with_user, skips_mark, count_visit, mark_loop, average, get_mark,
}

module _ (libs : Libs) {d : HashMap} (b : Base d) (q : MarkQuery) where
  -- The mark of a visit that is there with its user and passes the tests of the query.
  abbrev pub mark_of : Option (Visit × User) → List ℕ
  mark_of none = []
  mark_of (some (visit, user)) = if skips_mark libs b q visit user then [] else visit.mark ∷ []

  -- The marks that count, in the order of the set.
  abbrev pub marks : List ℕ → List ℕ
  marks [] = []
  marks (visit_id ∷ ids) = mark_of (visit_with_user b visit_id) ++ marks ids

  -- So many marks, and their sum in the order of the list.
  abbrev pub tally : List ℕ → ℕ × libs.Double → ℕ × libs.Double
  tally ms (counter, mark) = (counter + length ms, foldl libs.add_mark mark ms)

  count_visit-tally :
      (o : Option (Visit × User)) (rest : List ℕ) (c : ℕ × libs.Double)
      → tally rest (count_visit libs b q o c) ≡ tally (mark_of o ++ rest) c
  count_visit-tally none rest c = refl
  count_visit-tally (some (visit, user)) rest (counter, mark) =
      elim (Bool-cases (skips_mark libs b q visit user)) [
        | inl e ↦ rw e refl
        | inr e ↦
            rw e (
              ap (λ n. (n, foldl libs.add_mark (libs.add_mark mark visit.mark) rest)) (omega arith))
      ]

  mark_loop-tally :
      (ids : List ℕ) (c : ℕ × libs.Double) → mark_loop libs b q ids c ≡ tally (marks ids) c
  mark_loop-tally [] (counter, mark) = ap (λ n. (n, mark)) (omega arith)
  mark_loop-tally (v ∷ ids) c =
      mark_loop-tally ids (count_visit libs b q (visit_with_user b v) c)
      ∙ count_visit-tally (visit_with_user b v) (marks ids) c

  -- For a location that is there and has a set in the index, `get_mark` answers the average of the
  -- marks of exactly those visits of the set that are there with their user and pass the tests of
  -- the query: their sum over their number, and 0 if there are none.
  pub get_mark-average :
      (id address : ℕ) (ids : List ℕ)
      → d.find id b.locations ≡ some address
      → d.find id b.location_visit ≡ some ids
      → get_mark libs b id q
        ≡ codes "{\"avg\": "
          ++ average libs (length (marks ids), foldl libs.add_mark libs.zero_mark (marks ids))
  unfolding get_mark
  get_mark-average id address ids e f =
      rw (get_mark, e, f)
        (ap (λ c. codes "{\"avg\": " ++ average libs c)
          (mark_loop-tally ids (0, libs.zero_mark)
            ∙ ap (λ n. (n, foldl libs.add_mark libs.zero_mark (marks ids))) (omega arith)))
