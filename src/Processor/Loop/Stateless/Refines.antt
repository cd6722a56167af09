-- ===== src/Processor/Loop/Stateless/Refines.antt =====
-- A processor implements the service that keeps nothing but the base.
use highload_cup.Common.{
  ℕ, ◌≤◌, ◌≡◌, inl, inr, refl, sym, ap, ◌∙◌, true, Bool-cases, List, [], ◌∷◌, ◌++◌, Option, none,
  some, arith, Bytes, length, length-append, length-replicate, drop, set, ltb,
}
use highload_cup.Http.Request.{Proto, parse}
use highload_cup.Http.Request.Bounds.{parse-out_of_bounds}
use highload_cup.Store.HashMap.{HashMap}
use highload_cup.Store.Libs.{Libs, Run, done, refused, aborted, hung}
use highload_cup.Store.State.{Base}
use highload_cup.Processor.Answers.{Reply}
use highload_cup.Processor.Handle.{serve}
use highload_cup.Processor.Handle.Isolated.{serve-isolated}
use highload_cup.Processor.Loop.{
  Effect, closed, wrote, Event, Report, stopped, failed, ready, buffer_size, Worker, Trace,
  ◌then_run◌, read_into, object_behind, text_of, answer_text, on_event, on_events, on_reports,
  thread_function,
}
use highload_cup.Processor.Loop.Answered.{replied, answer_text-replied}
use highload_cup.Processor.Loop.Stateless.{
  blank, alone, answer_alone, on_event_alone, service, service_reports, forget,
}
use highload_cup.Processor.Loop.Stateless.Places.{
  IsReady, send-place, send-kept, length-set, drop-cons, drop-nil,
}

-- A worker that is still running is ready.
abbrev StaysReady : {d : HashMap} → Trace (Worker d) → Type 0
StaysReady (effects, done w) = IsReady w
StaysReady (effects, refused) = Unit
StaysReady (effects, aborted) = Unit
StaysReady (effects, hung) = Unit

-- A trace with all but the base forgotten, from a worker that stays ready.
abbrev Implements : {d : HashMap} → Trace (Worker d) → Trace (Base d) → Type 0
Implements t s = (forget t ≡ s) × StaysReady t

module _ {d : HashMap} where
  Implements-behind :
      (effects : List Effect) (t : Trace (Worker d)) (s : Trace (Base d))
      → Implements t s
      → Implements (effects ++ t.0, t.1) (effects ++ s.0, s.1)
  Implements-behind effects (more, done w) s (e, r) = rw (sym e) (refl, r)
  Implements-behind effects (more, refused) s (e, r) = rw (sym e) (refl, tt)
  Implements-behind effects (more, aborted) s (e, r) = rw (sym e) (refl, tt)
  Implements-behind effects (more, hung) s (e, r) = rw (sym e) (refl, tt)

  then_run-Implements :
      (t : Trace (Worker d)) (s : Trace (Base d)) (f : Worker d → Trace (Worker d))
      (g : Base d → Trace (Base d))
      → Implements t s
      → ((w : Worker d) → IsReady w → Implements (f w) (g w.base))
      → Implements (t then_run f) (s then_run g)
  then_run-Implements (effects, done w) s f g (e, r) step =
      rw (sym e) (Implements-behind effects (f w) (g w.base) (step w r))
  then_run-Implements (effects, refused) s f g (e, r) step = rw (sym e) (refl, tt)
  then_run-Implements (effects, aborted) s f g (e, r) step = rw (sym e) (refl, tt)
  then_run-Implements (effects, hung) s f g (e, r) step = rw (sym e) (refl, tt)

  replied-alone :
      (w : Worker d) (socket : ℕ) (req : Proto) (buffer : Bytes) (r : Run (Base d × Reply))
      → IsReady w
      → length buffer ≡ buffer_size
      → Implements (replied w socket req buffer r) (alone socket r)
  replied-alone w socket req buffer (done (b, reply)) (_, last) size = (
    ap (λ t. (wrote socket t ∷ [], done b)) (send-place w.m_answer200 reply last),
    (size, send-kept w.m_answer200 reply last),
  )
  replied-alone w socket req buffer refused h size = (refl, tt)
  replied-alone w socket req buffer aborted h size = (refl, tt)
  replied-alone w socket req buffer hung h size = (refl, tt)

module _ (libs : Libs) {d : HashMap} where
  serve_full :
      (b : Base d) (req : Proto) (buffer : Bytes) (size : ℕ)
      → length buffer ≤ size
      → serve libs b req buffer size ≡ aborted
  unfolding serve
  serve_full b req buffer size h = rw ((parse-out_of_bounds req buffer size).1 h, serve) refl

  answer_text-Implements :
      (w : Worker d) (ev : Event) (text : Bytes)
      → IsReady w
      → Implements (answer_text libs w ev text) (answer_alone libs w.base ev.socket text)
  unfolding answer_alone
  answer_text-Implements w ev text (size, last) =
      let buffer = read_into text w.buffer in
      let n = length text in
      let req = object_behind w.req ev.left (parse w.req buffer n) in
      elim (Bool-cases (ltb n buffer_size)) [
        | inl fits ↦
            let (o, old, e, m) = drop-cons n w.buffer (ground arith) in
            let same : serve libs w.base w.req buffer n
                ≡ serve libs w.base blank (text ++ 0 ∷ []) n =
              ap (λ t. serve libs w.base w.req (text ++ t) n) e
              ∙ serve-isolated libs w.base w.req blank text old [] o 0 in
            let kept : length (set buffer n 0) ≡ buffer_size =
              length-set buffer n 0
              ∙ omega (arith, length-append text (drop n w.buffer), ap length e) in
            rw (answer_text-replied libs w ev text, answer_alone, fits, same)
              (replied-alone w ev.socket req (set buffer n 0)
                (serve libs w.base blank (text ++ 0 ∷ []) n) (size, last) kept)
        | inr full ↦
            let none_left = drop-nil n w.buffer (ground arith) in
            let le : length buffer ≤ n =
              omega (arith, length-append text (drop n w.buffer), ap length none_left) in
            rw
              (
                answer_text-replied libs w ev text,
                answer_alone,
                full,
                serve_full w.base w.req buffer n le,
              )
              (refl, tt)
      ]

  on_event-Implements :
      (w : Worker d) (ev : Event)
      → IsReady w
      → Implements (on_event libs w ev) (on_event_alone libs w.base ev)
  unfolding on_event
  on_event-Implements w ev h = go (text_of ev)
    where
      go :
          (o : Option Bytes)
          → Implements
              (elim o [
                | none ↦ (closed ev.socket ∷ [], done w)
                | some text ↦ answer_text libs w ev text
              ])
              (elim o [
                | none ↦ (closed ev.socket ∷ [], done w.base)
                | some text ↦ answer_alone libs w.base ev.socket text
              ])
      go none = (refl, h)
      go (some text) = answer_text-Implements w ev text h

  on_events-Implements :
      (events_in : List Event) (w : Worker d)
      → IsReady w
      → Implements (on_events libs w events_in) (service libs w.base events_in)
  unfolding on_events service
  on_events-Implements [] w h = (refl, h)
  on_events-Implements (ev ∷ events_in) w h =
      then_run-Implements (on_event libs w ev) (on_event_alone libs w.base ev)
        (λ w'. on_events libs w' events_in) (λ b. service libs b events_in)
        (on_event-Implements w ev h) (λ w' h'. on_events-Implements events_in w' h')

  on_reports-Implements :
      (reports : List Report) (w : Worker d)
      → IsReady w
      → Implements (on_reports libs w reports) (service_reports libs w.base reports)
  unfolding on_reports service_reports
  on_reports-Implements [] w h = (refl, h)
  on_reports-Implements (stopped ∷ reports) w h = (refl, h)
  on_reports-Implements (failed ∷ reports) w h = (refl, h)
  on_reports-Implements (ready events_in ∷ reports) w h =
      then_run-Implements (on_events libs w events_in) (service libs w.base events_in)
        (λ w'. on_reports libs w' reports) (λ b. service_reports libs b reports)
        (on_events-Implements events_in w h) (λ w' h'. on_reports-Implements reports w' h')

  -- Whatever is reported and read, a processor does to its sockets and to the base, in order and up
  -- to its end, what the service does that answers each text with an object, a buffer and an
  -- answer of its own: no request has an effect on the answer to a later one but through the base.
  pub thread_function-service :
      (b : Base d) (req : Proto) (reports : List Report)
      → forget (thread_function libs b req true reports) ≡ service_reports libs b reports
  unfolding thread_function
  thread_function-service b req reports =
      (on_reports-Implements reports _ (length-replicate {A = ℕ} buffer_size 0, inl refl)).0
