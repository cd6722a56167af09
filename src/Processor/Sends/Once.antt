-- ===== src/Processor/Sends/Once.antt =====
-- The statements of `processor::handle` send one answer, and return behind it.
use highload_cup.Common.{
  ℕ, ◌+◌, ◌||◌, ◌==◌, not, ◌≡◌, refl, [], Bool-cases, inl, inr, Option-cases, if◌then◌else◌, Bytes,
  codes, bytes_eq,
}
use highload_cup.Util.Numbers.{format_uint32}
use highload_cup.Http.Method.{is_get, is_post}
use highload_cup.Http.Request.{Proto}
use highload_cup.Store.HashMap.{HashMap}
use highload_cup.Store.Libs.{Libs, Run, done, refused, aborted, hung, ◌>>=◌}
use highload_cup.Store.Fields.{first}
use highload_cup.Store.User.{is_empty}
use highload_cup.Store.State.{Base}
use highload_cup.Store.Update.{update}
use highload_cup.Processor.Answers.{Reply, bad_request}
use highload_cup.Processor.Routes.{Route, find_slash, route_within, route}
use highload_cup.Processor.Handle.{
  update_reply, handle_get, handle_insert, handle_update, handle_post, handle,
}
use highload_cup.Processor.Sends.{
  ◌then_run◌, Frame, Statement, unless_left, skip, leave, ◌and_then◌, send_call, get_statements,
  insert_statements, status_statements, update_statements, post_statements, handle_statements,
}
use highload_cup.Processor.Sends.Parts.{
  Result-cases, said, and_then_last, get_statements-said, insert_statements-said,
}

module _ {d : HashMap} (socket : ℕ) where
  -- The last statement of `handle`.
  abbrev at_last : Statement d
  at_last = send_call socket bad_request and_then leave

  status_statements-said :
      (status : ℕ) (f : Frame d)
      → (status_statements socket status and_then at_last) f
        ≡ said socket f (done (f.base, update_reply status))
  status_statements-said status f = elim (Bool-cases (status == 200)) [
    | inl e ↦ rw e refl
    | inr e ↦ elim (Bool-cases (status == 400)) [
      | inl g ↦ rw (e, g) refl
      | inr g ↦ elim (Bool-cases (status == 404)) [
        | inl k ↦ rw (e, g, k) refl
        | inr k ↦ rw (e, g, k) refl
      ]
    ]
  ]

  -- A call of the base, behind which the last statement may be reached.
  call_last :
      {A : Type 0} (r : Run (Base d × A)) (k : A → Statement d) (g : A → Reply) (f : Frame d)
      → ((a : A) (f' : Frame d) → (k a and_then at_last) f' ≡ said socket f' (done (f'.base, g a)))
      → ((([], r) then_run λ (b, a). k a (record f { base = b })) then_run unless_left at_last)
        ≡ said socket f (r >>= λ (b, a). done (b, g a))
  call_last (done (b, a)) k g f h = h a (record f { base = b })
  call_last refused k g f h = refl
  call_last aborted k g f h = refl
  call_last hung k g f h = refl

  update_statements-said :
      (libs : Libs) (entity id json : Bytes) (f : Frame d)
      → (update_statements socket libs entity id json and_then at_last) f
        ≡ said socket f (handle_update libs f.base entity id json)
  unfolding update_statements handle_update
  update_statements-said libs entity id json f = elim (Result-cases (format_uint32 id)) [
    | inl (e, h) ↦ rw (h, update_statements, handle_update) refl
    | inr (id_uint, h) ↦
        rw (h, update_statements, handle_update)
          (call_last (update libs f.base id_uint entity json) (status_statements socket)
            update_reply f status_statements-said)
  ]

  post_statements-said :
      (libs : Libs) (r : Route) (json : Bytes) (f : Frame d)
      → (post_statements socket libs r json and_then at_last) f
        ≡ said socket f (handle_post libs f.base r json)
  unfolding post_statements handle_post
  post_statements-said libs r json f =
      elim (Bool-cases (first json == 0 || not (is_empty r.func))) [
        | inl e ↦ rw (e, post_statements, handle_post) refl
        | inr e ↦ elim (Bool-cases (bytes_eq r.id (codes "new"))) [
          | inl g ↦
              rw (e, g, post_statements, handle_post)
                (and_then_last socket (insert_statements socket libs r.entity json) at_last f
                  (handle_insert libs f.base r.entity json)
                  (insert_statements-said socket libs r.entity json f))
          | inr g ↦
              rw (e, g, post_statements, handle_post)
                (update_statements-said libs r.entity r.id json f)
        ]
      ]

  routed-said :
      (libs : Libs) (req : Proto) (r : Route) (json : Bytes) (f : Frame d)
      → ((if is_get req.method
              then get_statements socket libs r req.params
              else if is_post req.method
              then post_statements socket libs r json
              else skip)
            and_then at_last)
          f
        ≡ said socket f (
            if is_get req.method
            then done (handle_get libs f.base r req.params)
            else if is_post req.method
            then handle_post libs f.base r json
            else done (f.base, bad_request))
  routed-said libs req r json f = elim (Bool-cases (is_get req.method)) [
    | inl e ↦ rw e (
        and_then_last socket (get_statements socket libs r req.params) at_last f
          (done (handle_get libs f.base r req.params))
          (get_statements-said socket libs r req.params f))
    | inr e ↦ elim (Bool-cases (is_post req.method)) [
      | inl g ↦ rw (e, g) (post_statements-said libs r json f)
      | inr g ↦ rw (e, g) refl
    ]
  ]

  -- Whatever the request, the statements of `handle`, run one after the other with a `return` only
  -- where the source has one, do to the base what `handle` does as a function, write its reply to
  -- the socket and nothing else, and end with a `return`. If a call of the base does not return,
  -- nothing is written.
  pub handle_statements-said :
      (libs : Libs) (req : Proto) (json : Bytes) (f : Frame d)
      → handle_statements socket libs req json f ≡ said socket f (handle libs f.base req json)
  unfolding handle_statements handle route
  handle_statements-said libs req json f = elim (Option-cases (find_slash req.path 0)) [
    | inl e ↦ rw (e, handle_statements, handle, route) refl
    | inr (pos_1, e) ↦ elim (Option-cases (find_slash req.path (pos_1 + 1))) [
      | inl g ↦ rw (e, g, handle_statements, handle, route) refl
      | inr (pos_2, g) ↦
          rw (e, g, handle_statements, handle, route)
            (routed-said libs req (route_within req.path pos_1 pos_2) json f)
    ]
  ]
