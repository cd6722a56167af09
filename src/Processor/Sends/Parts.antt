-- ===== src/Processor/Sends/Parts.antt =====
-- What the parts of `processor::handle` that return on every path have sent.
use highload_cup.Common.{
  ℕ, ◌&&◌, ◌≡◌, refl, ap, ◌∙◌, List, [], ◌∷◌, Bool, Bool-cases, inl, inr, if◌then◌else◌, Bytes,
  codes, bytes_eq, Result, ok, throw, Fail, ◌⊎◌, true, false,
}
use highload_cup.Util.Numbers.{format_uint32}
use highload_cup.Store.HashMap.{HashMap}
use highload_cup.Store.Libs.{Libs, Run, done, refused, aborted, hung, ◌>>=◌}
use highload_cup.Store.User.{is_empty}
use highload_cup.Store.State.{Base}
use highload_cup.Store.Insert.{insert}
use highload_cup.Store.Read.{get_object, get_visits, get_mark}
use highload_cup.Processor.Answers.{Reply, not_found, bad_request, empty_object, send}
use highload_cup.Processor.Routes.{Route}
use highload_cup.Processor.Query.{visits_query, mark_query}
use highload_cup.Processor.Handle.{
  answer, handle_object, handle_visits, handle_avg, handle_get, handle_insert,
}
use highload_cup.Processor.Sends.{
  wrote, Trace, ◌then_run◌, Frame, Flow, has_left, Statement, unless_left, leave, ◌and_then◌, call,
  send_call, send_result, object_statements, visits_statements, avg_statements, get_statements,
  insert_statements,
}

pub Result-cases :
    {A : Type 0} (r : Result A) → ((e : Fail) × (r ≡ throw e)) ⊎ ((a : A) × (r ≡ ok a))
Result-cases (throw e) = inl (e, refl)
Result-cases (ok a) = inr (a, refl)

module _ {d : HashMap} (socket : ℕ) where
  -- One answer is written, and the call has returned.
  abbrev pub said : Frame d → Run (Base d × Reply) → Trace (Flow d)
  said f (done (b, reply)) =
      let (written, kept) = send f.m_answer200 reply in
      (wrote socket written ∷ [], done (has_left (record { base = b; m_answer200 = kept })))
  said f refused = ([], refused)
  said f aborted = ([], aborted)
  said f hung = ([], hung)

  -- Nothing comes behind it.
  said_last :
      (t : Statement d) (f : Frame d) (r : Run (Base d × Reply))
      → (said f r then_run unless_left t) ≡ said f r
  said_last t f (done (b, reply)) = refl
  said_last t f refused = refl
  said_last t f aborted = refl
  said_last t f hung = refl

  pub and_then_last :
      (s t : Statement d) (f : Frame d) (r : Run (Base d × Reply))
      → s f ≡ said f r
      → (s and_then t) f ≡ said f r
  and_then_last s t f r e = ap (λ x. x then_run unless_left t) e ∙ said_last t f r

  send_result-said :
      (res : Bytes) (f : Frame d) → send_result socket res f ≡ said f (done (f.base, answer res))
  send_result-said res f = elim (Bool-cases (is_empty res)) [
    | inl e ↦ rw e refl
    | inr e ↦ rw e refl
  ]

  -- A call of the base, behind which one answer is sent.
  pub call-said :
      {A : Type 0} (r : Run (Base d × A)) (k : A → Statement d) (g : A → Reply) (f : Frame d)
      → ((a : A) (f' : Frame d) → k a f' ≡ said f' (done (f'.base, g a)))
      → (([], r) then_run λ (b, a). k a (record f { base = b }))
        ≡ said f (r >>= λ (b, a). done (b, g a))
  call-said (done (b, a)) k g f h = h a (record f { base = b })
  call-said refused k g f h = refl
  call-said aborted k g f h = refl
  call-said hung k g f h = refl

  object_statements-said :
      (entity id : Bytes) (f : Frame d)
      → object_statements socket entity id f ≡ said f (done (handle_object f.base entity id))
  unfolding object_statements handle_object
  object_statements-said entity id f = go (format_uint32 id)
    where
      go :
          (o : Result ℕ)
          → ◌≡◌ {A = Trace (Flow d)}
              ((elim o as (λ x. Statement d) [
                | throw e ↦ send_call socket not_found and_then leave
                | ok id_uint ↦
                    call (λ b. done (get_object b entity id_uint)) (λ res. send_result socket res)
              ])
                f)
              (said f (
                done (elim o [
                  | throw e ↦ (f.base, not_found)
                  | ok id_uint ↦
                      let (b', res) = get_object f.base entity id_uint in (b', answer res)
                ])))
      go (throw e) = refl
      go (ok id_uint) =
          call-said (done (get_object f.base entity id_uint)) (λ res. send_result socket res) answer
            f send_result-said

  visits_statements-said :
      (id : Bytes) (params : List (Bytes × Bytes)) (f : Frame d)
      → visits_statements socket id params f
        ≡ said f (done (f.base, handle_visits f.base id params))
  unfolding visits_statements handle_visits
  visits_statements-said id params f = elim (Result-cases (visits_query id params)) [
    | inl (e, h) ↦ rw (h, visits_statements, handle_visits) refl
    | inr ((id_uint, q), h) ↦
        rw (h, visits_statements, handle_visits) (send_result-said (get_visits f.base id_uint q) f)
  ]

  avg_statements-said :
      (libs : Libs) (id : Bytes) (params : List (Bytes × Bytes)) (f : Frame d)
      → avg_statements socket libs id params f
        ≡ said f (done (f.base, handle_avg libs f.base id params))
  unfolding avg_statements handle_avg
  avg_statements-said libs id params f = elim (Result-cases (mark_query id params)) [
    | inl (e, h) ↦ rw (h, avg_statements, handle_avg) refl
    | inr ((id_uint, q), h) ↦
        rw (h, avg_statements, handle_avg) (send_result-said (get_mark libs f.base id_uint q) f)
  ]

  pub get_statements-said :
      (libs : Libs) (r : Route) (params : List (Bytes × Bytes)) (f : Frame d)
      → get_statements socket libs r params f ≡ said f (done (handle_get libs f.base r params))
  unfolding get_statements handle_get
  get_statements-said libs r params f = elim (Bool-cases (is_empty r.func)) [
    | inl e ↦ rw (e, get_statements, handle_get) (object_statements-said r.entity r.id f)
    | inr e ↦
        elim (Bool-cases (bytes_eq r.func (codes "visits") && bytes_eq r.entity (codes "users"))) [
          | inl g ↦ rw (e, g, get_statements, handle_get) (visits_statements-said r.id params f)
          | inr g ↦
              elim (Bool-cases
                (bytes_eq r.func (codes "avg") && bytes_eq r.entity (codes "locations"))) [
                  | inl k ↦
                      rw (e, g, k, get_statements, handle_get)
                        (avg_statements-said libs r.id params f)
                  | inr k ↦ rw (e, g, k, get_statements, handle_get) refl
                ]
        ]
  ]

  pub insert_statements-said :
      (libs : Libs) (entity json : Bytes) (f : Frame d)
      → insert_statements socket libs entity json f ≡ said f (handle_insert libs f.base entity json)
  unfolding insert_statements handle_insert
  insert_statements-said libs entity json f =
      call-said (insert libs f.base entity json) _
        (λ inserted. if inserted then empty_object else bad_request) f
        (λ inserted f'. sent inserted f')
    where
      sent :
          (inserted : Bool) (f' : Frame d)
          → (if inserted
                then send_call socket empty_object and_then leave
                else send_call socket bad_request and_then leave)
              f'
            ≡ said f' (done (f'.base, if inserted then empty_object else bad_request))
      sent true f' = refl
      sent false f' = refl
