-- ===== src/Processor/Handle/Table.antt =====
-- What a processor answers to a request for the visits of a user or for the average of a location,
-- behind calls of the base and a last round of the worker, from the bytes of the buffer to the table
-- of visits.
use mathlib.Core.List.{foldl}
use highload_cup.Common.{
  ℕ, ◌^◌, ◌<◌, ◌≡◌, refl, ap, ◌∙◌, true, List, ◌∷◌, ◌++◌, some, ◌↔◌, Bytes, codes, length, All, ok,
}
use highload_cup.Common.Int.{ℤ}
use highload_cup.Util.Numbers.{itoa}
use highload_cup.Http.Params.Written.{Param, IsWritable}
use highload_cup.Http.Request.{Proto}
use highload_cup.Http.Request.Query.{query_text}
use highload_cup.Store.HashMap.{HashMap}
use highload_cup.Store.Libs.{Libs, Tm, done}
use highload_cup.Store.State.{Base, contains, construct}
use highload_cup.Store.Read.{VisitsQuery, MarkQuery, average, join, get_visits, get_mark}
use highload_cup.Store.Read.Marks.{marks}
use highload_cup.Store.Read.Averages.{get_mark-table}
use highload_cup.Store.Worker.Single.{IsSingle}
use highload_cup.Store.Read.Filter.{IsOrdered, has_time}
use highload_cup.Store.Read.Settled.{IsVisitOf, IsVisitAt, get_visits-table}
use highload_cup.Store.Worker.{round}
use highload_cup.Store.Cache.Objects.{Request, requests}
use highload_cup.Processor.Answers.{ok200}
use highload_cup.Processor.Routes.Paths.{call_path}
use highload_cup.Processor.Query.{visits_query, mark_query}
use highload_cup.Processor.Handle.{answer, handle_visits, handle_avg, serve}
use highload_cup.Processor.Handle.Serve.{serve_visits, serve_avg}

handle_visits-answer :
    {d : HashMap} (b : Base d) (id : Bytes) (params : List Param) (n : ℕ) (query : VisitsQuery)
    → visits_query id params ≡ ok (n, query)
    → handle_visits b id params ≡ answer (get_visits b n query)
unfolding handle_visits
handle_visits-answer b id params n query e = rw (handle_visits, e) refl

-- Behind any sequence of insertions, updates and readings of objects and of rounds of the worker,
-- each of which returns, and one more round that returns, a GET request text for
-- `/users/id/visits`, where `id` is what `itoa` prints of a 32-bit number, with the query string
-- that `to_raw` writes for one or more parameters (bytes, no name empty, the last value not) that
-- `visits_query` takes, followed by a space and any bytes, in a longer buffer, is answered with
-- status 200 and a list of objects, and leaves the base as it is, if the user is there: the times of
-- the objects grow strictly, each is the object of a visit of the table with that user and a location
-- of the table, which passes the tests of the parameters, under the time of the visit, and these
-- times are exactly the times of such visits.
pub serve-table :
    {d : HashMap} (libs : Libs) (tm : Tm) (rs : List Request) (b b' : Base d) (n : ℕ) (id : Bytes)
    (req : Proto) (tail old : Bytes) (o : ℕ) (q : Param) (ps : List Param) (query : VisitsQuery)
    (address : ℕ)
    → requests libs (construct d libs tm) rs ≡ done b
    → round b ≡ done b'
    → d.find n b'.users ≡ some address
    → n < 2 ^ 32
    → itoa n 10 ≡ ok id
    → IsWritable (q ∷ ps)
    → visits_query id (q ∷ ps) ≡ ok (n, query)
    → (entries : List (ℤ × Bytes)) × (serve libs b' req
          (query_text (call_path (codes "users") id (codes "visits")) (q ∷ ps) tail ++ o ∷ old)
          (length (query_text (call_path (codes "users") id (codes "visits")) (q ∷ ps) tail))
        ≡ done (b', ok200 (codes "{\"visits\":[" ++ (join entries ++ codes "]}"))))
      × IsOrdered entries
      × All (IsVisitOf b' query n) entries
      × ((k : ℤ) → has_time k entries ≡ true ↔ IsVisitAt b' query n k)
serve-table libs tm rs b b' n id req tail old o q ps query address h e there fits prints w reads =
    let (entries, text, ordered, all, times) =
      get_visits-table libs tm rs b b' query n address h e there in
    (
      entries,
      serve_visits n id fits prints libs b' req tail old o q ps w
          ∙ ap (λ r. done (b', r))
              (handle_visits-answer b' id (q ∷ ps) n query reads ∙ ap answer text),
      ordered,
      all,
      times,
    )

handle_avg-answer :
    {d : HashMap} (libs : Libs) (b : Base d) (id : Bytes) (params : List Param) (n : ℕ)
    (query : MarkQuery)
    → mark_query id params ≡ ok (n, query)
    → handle_avg libs b id params ≡ answer (get_mark libs b n query)
unfolding handle_avg
handle_avg-answer libs b id params n query e = rw (handle_avg, e) refl

-- Behind any sequence of insertions, updates and readings of objects and of rounds of the worker,
-- each of which returns, and one more round that returns, a GET request text for
-- `/locations/id/avg`, where `id` is what `itoa` prints of a 32-bit number, with the query string
-- that `to_raw` writes for one or more parameters (bytes, no name empty, the last value not) that
-- `mark_query` takes, followed by a space and any bytes, in a longer buffer, is answered with status
-- 200 and an average, and leaves the base as it is, if the location is there: of a list that has each
-- visit of the table with that location once, and no other id, it is the average of the marks of
-- those that are there with their user and pass the tests of the parameters, and 0 if there are none.
pub serve_avg-table :
    {d : HashMap} (libs : Libs) (tm : Tm) (rs : List Request) (b b' : Base d) (n : ℕ) (id : Bytes)
    (req : Proto) (tail old : Bytes) (o : ℕ) (q : Param) (ps : List Param) (query : MarkQuery)
    (address : ℕ)
    → requests libs (construct d libs tm) rs ≡ done b
    → round b ≡ done b'
    → d.find n b'.locations ≡ some address
    → n < 2 ^ 32
    → itoa n 10 ≡ ok id
    → IsWritable (q ∷ ps)
    → mark_query id (q ∷ ps) ≡ ok (n, query)
    → (ids : List ℕ) × IsSingle ids
      × ((v : ℕ)
          → contains v ids ≡ true
            ↔ ((a : ℕ) × (d.find v b'.visits ≡ some a) × ((b'.visit_heap.cell a).location ≡ n)))
      × (serve libs b' req
            (query_text (call_path (codes "locations") id (codes "avg")) (q ∷ ps) tail ++ o ∷ old)
            (length (query_text (call_path (codes "locations") id (codes "avg")) (q ∷ ps) tail))
          ≡ done (
            b',
            ok200 (
                codes "{\"avg\": "
                ++ average libs (
                  length (marks libs b' query ids),
                  foldl libs.add_mark libs.zero_mark (marks libs b' query ids),
                )),
          ))
serve_avg-table libs tm rs b b' n id req tail old o q ps query address h e there fits prints w
      reads =
    let (ids, single, right, text) = get_mark-table libs tm rs b b' query n address h e there in
    (
      ids,
      single,
      right,
      serve_avg n id fits prints libs b' req tail old o q ps w
          ∙ ap (λ r. done (b', r))
              (handle_avg-answer libs b' id (q ∷ ps) n query reads ∙ ap answer text),
    )
