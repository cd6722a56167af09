-- ===== src/Processor/Handle.antt =====
-- `processor::handle`, and what `processor::thread_function` does with what it has read from a
-- socket (processor.cpp).
pub mod Serve
pub mod ServePost
pub mod Table
pub mod Isolated
use highload_cup.Common.{
  ℕ, ◌||◌, not, List, Option, none, some, ◌&&◌, ◌==◌, true, false, if◌then◌else◌, Bytes, codes,
  bytes_eq, Result, ok, throw,
}
use highload_cup.Util.Numbers.{format_uint32}
use highload_cup.Http.Method.{Method, is_get, is_post}
use highload_cup.Http.Request.{Proto, Outcome, parsed, exception, out_of_bounds, parse, body}
use highload_cup.Store.HashMap.{HashMap}
use highload_cup.Store.Libs.{Libs, Run, done, refused, aborted, hung, ◌>>=◌}
use highload_cup.Store.Fields.{first}
use highload_cup.Store.User.{is_empty}
use highload_cup.Store.State.{Base}
use highload_cup.Store.Insert.{insert}
use highload_cup.Store.Update.{update}
use highload_cup.Store.Read.{get_object, get_visits, get_mark}
use highload_cup.Processor.Answers.{Reply, ok200, not_found, bad_request, empty_object}
use highload_cup.Processor.Routes.{Route, route}
use highload_cup.Processor.Query.{visits_query, mark_query}

-- `if (res->empty()) send404(socket); else send200(socket, *res);`
abbrev pub answer : Bytes → Reply
answer res = if is_empty res then not_found else ok200 res

-- The answer to the status that `update` returns.
abbrev pub update_reply : ℕ → Reply
update_reply res_update =
    if res_update == 200
    then empty_object
    else if res_update == 400
    then bad_request
    else if res_update == 404
    then not_found
    else bad_request

module _ {d : HashMap} where
  unfoldable pub handle_object : Base d → Bytes → Bytes → Base d × Reply
  unfolding format_uint32 get_object
  handle_object b entity id = elim (format_uint32 id) [
    | throw e ↦ (b, not_found)
    | ok id_uint ↦ let (b', res) = get_object b entity id_uint in (b', answer res)
  ]

  unfoldable pub handle_visits : Base d → Bytes → List (Bytes × Bytes) → Reply
  unfolding visits_query get_visits
  handle_visits b id params = elim (visits_query id params) [
    | throw e ↦ bad_request
    | ok (id_uint, q) ↦ answer (get_visits b id_uint q)
  ]

  unfoldable pub handle_avg : Libs → Base d → Bytes → List (Bytes × Bytes) → Reply
  unfolding mark_query get_mark
  handle_avg libs b id params = elim (mark_query id params) [
    | throw e ↦ bad_request
    | ok (id_uint, q) ↦ answer (get_mark libs b id_uint q)
  ]

  unfoldable pub handle_get : Libs → Base d → Route → List (Bytes × Bytes) → Base d × Reply
  unfolding handle_object handle_visits handle_avg
  handle_get libs b r params =
      if is_empty r.func
      then handle_object b r.entity r.id
      else if bytes_eq r.func (codes "visits") && bytes_eq r.entity (codes "users")
      then (b, handle_visits b r.id params)
      else if bytes_eq r.func (codes "avg") && bytes_eq r.entity (codes "locations")
      then (b, handle_avg libs b r.id params)
      else (b, bad_request)

  unfoldable pub handle_insert : Libs → Base d → Bytes → Bytes → Run (Base d × Reply)
  unfolding insert
  handle_insert libs b entity json = do
    (b', inserted) ← insert libs b entity json
    done (b', if inserted then empty_object else bad_request)

  unfoldable pub handle_update : Libs → Base d → Bytes → Bytes → Bytes → Run (Base d × Reply)
  unfolding update format_uint32
  handle_update libs b entity id json = elim (format_uint32 id) [
    | throw e ↦ done (b, bad_request)
    | ok id_uint ↦
        update libs b id_uint entity json >>= λ (b', status). done (b', update_reply status)
  ]

  unfoldable pub handle_post : Libs → Base d → Route → Bytes → Run (Base d × Reply)
  unfolding handle_insert handle_update
  handle_post libs b r json =
      if first json == 0 || not (is_empty r.func)
      then done (b, bad_request)
      else if bytes_eq r.id (codes "new")
      then handle_insert libs b r.entity json
      else handle_update libs b r.entity r.id json

  unfoldable pub handle : Libs → Base d → Proto → Bytes → Run (Base d × Reply)
  unfolding route handle_get handle_post
  handle libs b req json = elim (route req.path) [
    | none ↦ done (b, bad_request)
    | some r ↦
        if is_get req.method
        then done (handle_get libs b r req.params)
        else if is_post req.method
        then handle_post libs b r json
        else done (b, bad_request)
  ]

  -- What is read from a socket, up to its answer. A write behind the end of the buffer has no
  -- defined behaviour; it stands among the ends of the process.
  unfoldable pub serve : Libs → Base d → Proto → Bytes → ℕ → Run (Base d × Reply)
  unfolding handle parse body
  serve libs b req buffer data_size = elim (parse req buffer data_size) [
    | parsed true req' buffer' ↦ handle libs b req' (body req' buffer')
    | parsed false req' buffer' ↦ done (b, bad_request)
    | exception e ↦ done (b, bad_request)
    | out_of_bounds ↦ aborted
  ]
