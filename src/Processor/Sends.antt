-- ===== src/Processor/Sends.antt =====
-- `processor::handle` (processor.cpp) by its statements: each `send`, each `return` and each call of
-- the base stands where the source has it.
pub mod Parts
pub mod Once
use highload_cup.Common.{
  ℕ, ◌+◌, ◌||◌, ◌&&◌, ◌==◌, not, List, [], ◌∷◌, ◌++◌, Bool, Option, none, some, if◌then◌else◌,
  Bytes, codes, bytes_eq, Result, ok, throw,
}
use highload_cup.Util.Numbers.{format_uint32, find_from}
use highload_cup.Http.Method.{is_get, is_post}
use highload_cup.Http.Request.{Proto}
use highload_cup.Store.HashMap.{HashMap}
use highload_cup.Store.Libs.{Libs, Run, done, refused, aborted, hung}
use highload_cup.Store.Fields.{first}
use highload_cup.Store.User.{is_empty}
use highload_cup.Store.State.{Base}
use highload_cup.Store.Insert.{insert}
use highload_cup.Store.Update.{update}
use highload_cup.Store.Read.{get_object, get_visits, get_mark}
use highload_cup.Processor.Answers.{Reply, ok200, not_found, bad_request, empty_object, send}
use highload_cup.Processor.Routes.{Route, find_slash, route_within}
use highload_cup.Processor.Query.{visits_query, mark_query}

-- What a processor does to a socket.
pub data Effect : Type 0 where
  closed : ℕ → Effect
  wrote : ℕ → Bytes → Effect

abbrev pub socket_of : Effect → ℕ
socket_of (closed socket) = socket
socket_of (wrote socket text) = socket

-- What has been done so far, and how the call has ended.
abbrev pub Trace : Type 0 → Type 0
Trace A = List Effect × Run A

infixl 5 ◌then_run◌
abbrev pub ◌then_run◌ : {A B : Type 0} → Trace A → (A → Trace B) → Trace B
(effects, done a) then_run f = let (more, r) = f a in (effects ++ more, r)
(effects, refused) then_run f = (effects, refused)
(effects, aborted) then_run f = (effects, aborted)
(effects, hung) then_run f = (effects, hung)

-- The base, and the text of the last answer.
pub record Frame (d : HashMap) : Type 0 where
  pub base : Base d
  pub m_answer200 : Bytes

-- Behind a statement the call goes on, or it has returned.
pub data Flow (d : HashMap) : Type 0 where
  goes_on : Frame d → Flow d
  has_left : Frame d → Flow d

abbrev pub Statement : HashMap → Type 0
Statement d = Frame d → Trace (Flow d)

module _ {d : HashMap} where
  abbrev pub skip : Statement d
  skip f = ([], done (goes_on f))

  -- `return;`
  abbrev pub leave : Statement d
  leave f = ([], done (has_left f))

  -- The second statement, unless the first one has returned.
  abbrev pub unless_left : Statement d → Flow d → Trace (Flow d)
  unless_left t (goes_on f) = t f
  unless_left t (has_left f) = ([], done (has_left f))

  infixr 4 ◌and_then◌
  abbrev pub ◌and_then◌ : Statement d → Statement d → Statement d
  (s and_then t) f = s f then_run unless_left t

  -- A call of the base, and what is done with its result.
  abbrev pub call : {A : Type 0} → (Base d → Run (Base d × A)) → (A → Statement d) → Statement d
  call m k f = ([], m f.base) then_run λ (b, a). k a (record f { base = b })

module _ {d : HashMap} (socket : ℕ) where
  abbrev pub send_call : Reply → Statement d
  send_call reply f =
      let (written, kept) = send f.m_answer200 reply in
      (wrote socket written ∷ [], done (goes_on (record f { m_answer200 = kept })))

  abbrev pub send_result : Bytes → Statement d
  send_result res =
      if is_empty res
      then send_call not_found and_then leave
      else send_call (ok200 res) and_then leave

  unfoldable pub object_statements : Bytes → Bytes → Statement d
  unfolding format_uint32 get_object send
  object_statements entity id = elim (format_uint32 id) [
    | throw e ↦ send_call not_found and_then leave
    | ok id_uint ↦ call (λ b. done (get_object b entity id_uint)) (λ res. send_result res)
  ]

  unfoldable pub visits_statements : Bytes → List (Bytes × Bytes) → Statement d
  unfolding visits_query get_visits send
  visits_statements id params = elim (visits_query id params) [
    | throw e ↦ send_call bad_request and_then leave
    | ok (id_uint, q) ↦ λ f. send_result (get_visits f.base id_uint q) f
  ]

  unfoldable pub avg_statements : Libs → Bytes → List (Bytes × Bytes) → Statement d
  unfolding mark_query get_mark send
  avg_statements libs id params = elim (mark_query id params) [
    | throw e ↦ send_call bad_request and_then leave
    | ok (id_uint, q) ↦ λ f. send_result (get_mark libs f.base id_uint q) f
  ]

  unfoldable pub get_statements : Libs → Route → List (Bytes × Bytes) → Statement d
  unfolding object_statements visits_statements avg_statements
  get_statements libs r params =
      if is_empty r.func
      then object_statements r.entity r.id
      else if bytes_eq r.func (codes "visits") && bytes_eq r.entity (codes "users")
      then visits_statements r.id params
      else if bytes_eq r.func (codes "avg") && bytes_eq r.entity (codes "locations")
      then avg_statements libs r.id params
      else (send_call bad_request and_then leave)

  unfoldable pub insert_statements : Libs → Bytes → Bytes → Statement d
  unfolding insert send
  insert_statements libs entity json =
      call (λ b. insert libs b entity json)
        λ inserted.
          if inserted
          then send_call empty_object and_then leave
          else send_call bad_request and_then leave

  -- Another status falls through to the last statement of `handle`.
  abbrev pub status_statements : ℕ → Statement d
  status_statements res_update =
      if res_update == 200
      then send_call empty_object and_then leave
      else if res_update == 400
      then send_call bad_request and_then leave
      else if res_update == 404
      then send_call not_found and_then leave
      else skip

  unfoldable pub update_statements : Libs → Bytes → Bytes → Bytes → Statement d
  unfolding format_uint32 update send
  update_statements libs entity id json = elim (format_uint32 id) [
    | throw e ↦ status_statements 400
    | ok id_uint ↦
        call (λ b. update libs b id_uint entity json) (λ status. status_statements status)
  ]

  unfoldable pub post_statements : Libs → Route → Bytes → Statement d
  unfolding insert_statements update_statements send
  post_statements libs r json =
      (if first json == 0 || not (is_empty r.func)
        then send_call bad_request and_then leave
        else skip)
      and_then (if bytes_eq r.id (codes "new")
          then insert_statements libs r.entity json
          else update_statements libs r.entity r.id json)

  unfoldable pub handle_statements : Libs → Proto → Bytes → Statement d
  unfolding find_from get_statements post_statements send
  handle_statements libs req json = elim (find_slash req.path 0) [
    | none ↦ send_call bad_request and_then leave
    | some pos_1 ↦ elim (find_slash req.path (pos_1 + 1)) [
      | none ↦ send_call bad_request and_then leave
      | some pos_2 ↦
          let r = route_within req.path pos_1 pos_2 in
          (if is_get req.method
            then get_statements libs r req.params
            else if is_post req.method
            then post_statements libs r json
            else skip)
          and_then (send_call bad_request and_then leave)
    ]
  ]
