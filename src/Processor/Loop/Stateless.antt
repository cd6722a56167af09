-- ===== src/Processor/Loop/Stateless.antt =====
-- A processor keeps an object, a buffer and the text of its last answer from one request to the
-- next. Against it stands the service that keeps nothing but the base.
pub mod Places
pub mod Refines
use highload_cup.Common.{
  ℕ, zero, suc, ◌+◌, ◌≤◌, ◌<◌, ◌≡◌, ◌⊎◌, inl, inr, refl, sym, ap, ◌∙◌, Bool, true, false,
  Bool-cases, List, [], ◌∷◌, ◌++◌, append-nil, Option, none, some, if◌then◌else◌, arith, Bytes,
  codes, length, length-append, length-replicate, drop, take, take-length-append, set, replicate,
  ltb, map,
}
use highload_cup.Common.Text.{to_string}
use highload_cup.Http.Method.{unknown}
use highload_cup.Http.Request.{Proto, parse, out_of_bounds}
use highload_cup.Http.Request.Bounds.{parse-out_of_bounds}
use highload_cup.Store.HashMap.{HashMap}
use highload_cup.Store.Libs.{Libs, Run, done, refused, aborted, hung}
use highload_cup.Store.State.{Base}
use highload_cup.Processor.Answers.{
  Reply, ok200, not_found, bad_request, empty_object, answer200, send, send200,
}
use highload_cup.Processor.Handle.{serve}
use highload_cup.Processor.Handle.Isolated.{serve-isolated}
use highload_cup.Processor.Loop.{
  Effect, closed, wrote, Event, Report, stopped, failed, ready, buffer_size, Worker, Trace,
  ◌then_run◌, read_into, object_behind, text_of, answer_text, on_event, on_events, on_reports,
  thread_function,
}

-- An object that nothing has been read into.
abbrev pub blank : Proto
blank = record { params = []; method = unknown; path = []; body_at = 0 }

abbrev pub alone : {d : HashMap} → ℕ → Run (Base d × Reply) → Trace (Base d)
alone socket (done (b, reply)) = (wrote socket (send [] reply).0 ∷ [], done b)
alone socket refused = ([], refused)
alone socket aborted = ([], aborted)
alone socket hung = ([], hung)

module _ (libs : Libs) {d : HashMap} where
  -- The answer to a text in an object, a buffer and an answer of its own. A text that fills the
  -- buffer of a processor ends in a write behind it.
  unfoldable pub answer_alone : Base d → ℕ → Bytes → Trace (Base d)
  unfolding send
  answer_alone b socket text =
      if ltb (length text) buffer_size
      then alone socket (serve libs b blank (text ++ 0 ∷ []) (length text))
      else ([], aborted)

  -- What happens to one event.
  abbrev pub on_event_alone : Base d → Event → Trace (Base d)
  on_event_alone b ev = elim (text_of ev) [
    | none ↦ (closed ev.socket ∷ [], done b)
    | some text ↦ answer_alone b ev.socket text
  ]

  unfoldable pub service : Base d → List Event → Trace (Base d)
  unfolding answer_alone
  service b [] = ([], done b)
  service b (ev ∷ events_in) = on_event_alone b ev then_run λ b'. service b' events_in

  unfoldable pub service_reports : Base d → List Report → Trace (Base d)
  unfolding service
  service_reports b [] = ([], done b)
  service_reports b (stopped ∷ reports) = ([], done b)
  service_reports b (failed ∷ reports) = ([], done b)
  service_reports b (ready events_in ∷ reports) =
      service b events_in then_run λ b'. service_reports b' reports

-- What stays of a worker where all but the base is forgotten.
abbrev pub forget : {d : HashMap} → Trace (Worker d) → Trace (Base d)
forget (effects, done w) = (effects, done w.base)
forget (effects, refused) = (effects, refused)
forget (effects, aborted) = (effects, aborted)
forget (effects, hung) = (effects, hung)
