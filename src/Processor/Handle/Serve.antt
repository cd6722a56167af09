-- ===== src/Processor/Handle/Serve.antt =====
-- What a processor answers to a request text, from the bytes of the buffer to the reply.
use highload_cup.Common.{
  List, arith, ℕ, ◌^◌, ◌<◌, ◌≡◌, ◌≢◌, ◌⊎◌, refl, ap, ◌∙◌, [], ◌∷◌, ◌++◌, some, Bytes, codes, length,
  All, All-append, Result, ok, Bool, true, false, if◌then◌else◌, ◌==◌,
}
use highload_cup.Util.Numbers.{itoa, format_uint32}
use highload_cup.Util.Numbers.Decimal.{IsDigit}
use highload_cup.Util.Numbers.Parse.{format_uint32_exact}
use highload_cup.Util.Numbers.RoundTrip.{format_uint32-itoa}
use highload_cup.Http.Method.{is_get}
use highload_cup.Http.Params.Written.{Param, IsWritable}
use highload_cup.Http.Request.{Proto, parsed, parse}
use highload_cup.Http.Request.Steps.{IsPathByte, IsLineByte}
use highload_cup.Http.Request.Line.{get_text, parse_get}
use highload_cup.Http.Request.Query.{query_text, parse_query, stored, lookup-stored}
use highload_cup.Store.HashMap.{HashMap}
use highload_cup.Store.Libs.{Libs, done}
use highload_cup.Store.State.{Base}
use highload_cup.Store.Read.{get_object}
use highload_cup.Processor.Routes.{Route, route}
use highload_cup.Processor.Routes.Paths.{
  IsNameByte, object_path, call_path, route-object_path, route-call_path,
}
use highload_cup.Processor.Query.{argument, long_value, gender_value, visits_query, mark_query}
use highload_cup.Processor.Handle.{
  answer, handle_object, handle_visits, handle_avg, handle_get, handle, serve,
}

-- A request that is parsed, and whose path is a route, goes to `handle_get`.
served_get :
    {d : HashMap} (libs : Libs) (b : Base d) (req req' : Proto) (buffer buffer' : Bytes) (size : ℕ)
    (r : Route)
    → parse req buffer size ≡ parsed true req' buffer'
    → route req'.path ≡ some r
    → is_get req'.method ≡ true
    → serve libs b req buffer size ≡ done (handle_get libs b r req'.params)
unfolding serve handle
served_get libs b req req' buffer buffer' size r e f g = rw (serve, e, handle, f, g) refl

served_object :
    {d : HashMap} (libs : Libs) (b : Base d) (entity id : Bytes) (n : ℕ) (params : List Param)
    → format_uint32 id ≡ ok n
    → handle_get libs b (record { entity = entity; id = id; func = [] }) params
      ≡ ((get_object b entity n).0, answer (get_object b entity n).1)
unfolding handle_get handle_object
served_object libs b entity id n params e = rw (handle_object, e) refl

argument-stored :
    {A : Type 0} (ps : List Param) (key : Bytes) (format : Bytes → Result A)
    → argument (stored ps) key format ≡ argument ps key format
unfolding argument
argument-stored ps key format = rw (argument, lookup-stored key ps) refl

visits_query-stored :
    (id : Bytes) (ps : List Param) → visits_query id (stored ps) ≡ visits_query id ps
unfolding visits_query
visits_query-stored id ps =
    rw
      (
        visits_query,
        argument-stored ps (codes "fromDate") long_value,
        argument-stored ps (codes "toDate") long_value,
        argument-stored {A = Bytes} ps (codes "country") ok,
        argument-stored ps (codes "toDistance") format_uint32,
      )
      refl

mark_query-stored : (id : Bytes) (ps : List Param) → mark_query id (stored ps) ≡ mark_query id ps
unfolding mark_query
mark_query-stored id ps =
    rw
      (
        mark_query,
        argument-stored ps (codes "fromDate") long_value,
        argument-stored ps (codes "toDate") long_value,
        argument-stored ps (codes "fromAge") format_uint32,
        argument-stored ps (codes "toAge") format_uint32,
        argument-stored ps (codes "gender") gender_value,
      )
      refl

-- A text of name bytes, as a test.
abbrev pub is_name : Bytes → Bool
is_name [] = true
is_name (b ∷ w) =
    if b == b' ' then false else if b == b'?' then false else if b == b'/' then false else is_name w

pub is_name_sound : (w : Bytes) → is_name w ≡ true → All IsPathByte w × All IsNameByte w
is_name_sound [] h = (tt, tt)
is_name_sound (b ∷ w) h =
    let (p, q) = is_name_sound w (ground arith) in
    (((ground arith, ground arith), p), (ground arith, q))

module _ (n : ℕ) (id : Bytes) (fits : n < 2 ^ 32) (prints : itoa n 10 ≡ ok id) where
  pub reads : format_uint32 id ≡ ok n
  reads = let e = format_uint32-itoa n fits in rw prints at e

  pub digits : All IsDigit id
  digits = ((format_uint32_exact id n).0 reads).0

  pub id_in_path : (w : Bytes) → All IsDigit w → All IsPathByte w × All IsNameByte w
  id_in_path [] h = (tt, tt)
  id_in_path (b ∷ w) (hb, h) =
      let (p, q) = id_in_path w h in (((ground arith, ground arith), p), (ground arith, q))

  -- A GET request for `/entity/id`, where `id` is what `itoa` prints of a 32-bit number and `entity`
  -- is any text with no space, `?` or slash, with a version in one line and any header, in a longer
  -- buffer, is answered with what `get_object` has for that entity and that number (404 for an empty
  -- text), and leaves the base that `get_object` leaves.
  pub serve_object :
      {d : HashMap} (libs : Libs) (b : Base d) (req : Proto) (entity version tail old : Bytes)
      (eol o : ℕ)
      → All IsPathByte entity
      → All IsNameByte entity
      → version ≢ []
      → All IsLineByte version
      → (eol ≡ b'\n') ⊎ (eol ≡ b'\r')
      → serve libs b req
          (get_text (object_path entity id) version eol tail ++ o ∷ old)
          (length (get_text (object_path entity id) version eol tail))
        ≡ done ((get_object b entity n).0, answer (get_object b entity n).1)
  serve_object libs b req entity version tail old eol o hp hn vne hv he =
      let (ip, iq) = id_in_path id digits in
      let in_path : All IsPathByte (object_path entity id) = (
        (ground arith, ground arith),
        All-append IsPathByte entity _ hp ((ground arith, ground arith), ip),
      ) in
      served_get libs b req _ _ _ _ (record { entity = entity; id = id; func = [] })
        (parse_get req (object_path entity id) version tail old eol o (λ e. cc) in_path vne hv he)
        (route-object_path entity hn id iq) refl
      ∙ ap done (served_object libs b entity id n [] reads)

  -- The path of a call under the id.
  call_in_path :
      (entity func : Bytes)
      → All IsPathByte entity
      → All IsPathByte func
      → All IsPathByte (call_path entity id func)
  call_in_path entity func he hf = (
    (ground arith, ground arith),
    All-append IsPathByte entity _ he (
      (ground arith, ground arith),
      All-append IsPathByte id _ (id_in_path id digits).0 ((ground arith, ground arith), hf),
    ),
  )

  served_visits :
      {d : HashMap} (libs : Libs) (b : Base d) (ps : List Param)
      → handle_get libs b
          (record { entity = codes "users"; id = id; func = codes "visits" })
          (stored ps)
        ≡ (b, handle_visits b id ps)
  unfolding handle_get handle_visits
  served_visits libs b ps = rw (handle_visits, visits_query-stored id ps) refl

  served_avg :
      {d : HashMap} (libs : Libs) (b : Base d) (ps : List Param)
      → handle_get libs b
          (record { entity = codes "locations"; id = id; func = codes "avg" })
          (stored ps)
        ≡ (b, handle_avg libs b id ps)
  unfolding handle_get handle_avg
  served_avg libs b ps = rw (handle_avg, mark_query-stored id ps) refl

  module _ {d : HashMap} (libs : Libs) (b : Base d) (req : Proto) (tail old : Bytes) (o : ℕ)
      (q : Param) (ps : List Param) (w : IsWritable (q ∷ ps)) where
    -- A GET request for `/users/id/visits`, where `id` is what `itoa` prints of a 32-bit number, with
    -- the query string that `to_raw` writes for one or more parameters (bytes, no name empty, the last
    -- value not), followed by a space and any bytes, in a longer buffer, is answered by
    -- `handle_visits` on that id and those parameters, and leaves the base as it is.
    pub serve_visits :
        serve libs b req
          (query_text (call_path (codes "users") id (codes "visits")) (q ∷ ps) tail ++ o ∷ old)
          (length (query_text (call_path (codes "users") id (codes "visits")) (q ∷ ps) tail))
        ≡ done (b, handle_visits b id (q ∷ ps))
    serve_visits =
        let (users_in_path, users_name) = is_name_sound (codes "users") refl in
        served_get libs b req _ _ _ _
          (record { entity = codes "users"; id = id; func = codes "visits" })
          (parse_query req (call_path (codes "users") id (codes "visits")) tail old o q ps (λ e. cc)
            (call_in_path (codes "users") (codes "visits") users_in_path
              (is_name_sound (codes "visits") refl).0)
            w)
          (route-call_path (codes "users") users_name id (codes "visits") (id_in_path id digits).1)
          refl
        ∙ ap done (served_visits libs b (q ∷ ps))

    -- The same for `/locations/id/avg` and `handle_avg`: the answer is made of the printed id and the
    -- written parameters, and the base is left as it is.
    pub serve_avg :
        serve libs b req
          (query_text (call_path (codes "locations") id (codes "avg")) (q ∷ ps) tail ++ o ∷ old)
          (length (query_text (call_path (codes "locations") id (codes "avg")) (q ∷ ps) tail))
        ≡ done (b, handle_avg libs b id (q ∷ ps))
    serve_avg =
        let (locations_in_path, locations_name) = is_name_sound (codes "locations") refl in
        served_get libs b req _ _ _ _
          (record { entity = codes "locations"; id = id; func = codes "avg" })
          (parse_query req (call_path (codes "locations") id (codes "avg")) tail old o q ps
            (λ e. cc)
            (call_in_path (codes "locations") (codes "avg") locations_in_path
              (is_name_sound (codes "avg") refl).0)
            w)
          (route-call_path (codes "locations") locations_name id (codes "avg")
            (id_in_path id digits).1)
          refl
        ∙ ap done (served_avg libs b (q ∷ ps))
