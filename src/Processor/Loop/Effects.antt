-- ===== src/Processor/Loop/Effects.antt =====
-- One effect for each event.
use mathlib.Core.List.{map-append}
use highload_cup.Common.{
  ℕ, subst, ◌≡◌, refl, List, [], ◌∷◌, ◌++◌, Bytes, Option, none, some, map, length, set,
}
use highload_cup.Http.Request.{Proto, parse}
use highload_cup.Store.HashMap.{HashMap}
use highload_cup.Store.Libs.{Libs, Run, done, refused, aborted, hung}
use highload_cup.Store.State.{Base}
use highload_cup.Processor.Answers.{Reply}
use highload_cup.Processor.Handle.{serve}
use highload_cup.Processor.Loop.{
  Effect, closed, socket_of, Event, Worker, Trace, ◌then_run◌, read_into, object_behind,
  answer_text, text_of, on_event, on_events,
}
use highload_cup.Processor.Loop.Answered.{replied, answer_text-replied}

-- The sockets that have been touched, if the call has returned.
abbrev Touches : {A : Type 0} → Trace A → List ℕ → Type 0
Touches (effects, done a) sockets = map socket_of effects ≡ sockets
Touches (effects, refused) sockets = Unit
Touches (effects, aborted) sockets = Unit
Touches (effects, hung) sockets = Unit

module _ {d : HashMap} where
  replied-Touches :
      (w : Worker d) (socket : ℕ) (req : Proto) (buffer : Bytes) (r : Run (Base d × Reply))
      → Touches (replied w socket req buffer r) (socket ∷ [])
  replied-Touches w socket req buffer (done (b, reply)) = refl
  replied-Touches w socket req buffer refused = tt
  replied-Touches w socket req buffer aborted = tt
  replied-Touches w socket req buffer hung = tt

  behind-Touches :
      (effects : List Effect) (t : Trace (Worker d)) (first rest : List ℕ)
      → map socket_of effects ≡ first
      → Touches t rest
      → Touches (effects ++ t.0, t.1) (first ++ rest)
  behind-Touches effects (more, done w) first rest e h = rw (map-append, e, h) refl
  behind-Touches effects (more, refused) first rest e h = tt
  behind-Touches effects (more, aborted) first rest e h = tt
  behind-Touches effects (more, hung) first rest e h = tt

  then_run-Touches :
      (t : Trace (Worker d)) (f : Worker d → Trace (Worker d)) (first rest : List ℕ)
      → Touches t first
      → ((w : Worker d) → Touches (f w) rest)
      → Touches (t then_run f) (first ++ rest)
  then_run-Touches (effects, done w) f first rest e h =
      behind-Touches effects (f w) first rest e (h w)
  then_run-Touches (effects, refused) f first rest e h = tt
  then_run-Touches (effects, aborted) f first rest e h = tt
  then_run-Touches (effects, hung) f first rest e h = tt

module _ (libs : Libs) {d : HashMap} where
  on_event-Touches : (w : Worker d) (ev : Event) → Touches (on_event libs w ev) (ev.socket ∷ [])
  unfolding on_event
  on_event-Touches w ev = go (text_of ev)
    where
      go :
          (o : Option Bytes)
          → Touches {A = Worker d}
              (elim o [
                | none ↦ (closed ev.socket ∷ [], done w)
                | some text ↦ answer_text libs w ev text
              ])
              (ev.socket ∷ [])
      go none = refl
      go (some text) =
          let buffer = read_into text w.buffer in
          rw (answer_text-replied libs w ev text) (
            replied-Touches w ev.socket
              (object_behind w.req ev.left (parse w.req buffer (length text)))
              (set buffer (length text) 0) (serve libs w.base w.req buffer (length text)))

  on_events-Touches :
      (events_in : List Event) (w : Worker d)
      → Touches (on_events libs w events_in) (map (λ ev. ev.socket) events_in)
  unfolding on_events
  on_events-Touches [] w = refl
  on_events-Touches (ev ∷ events_in) w =
      then_run-Touches (on_event libs w ev) (λ w'. on_events libs w' events_in) (ev.socket ∷ [])
        (map (λ e. e.socket) events_in) (on_event-Touches w ev)
        (λ w'. on_events-Touches events_in w')

  -- Events that are all worked off have one effect each, in their order: their socket is closed, or
  -- one answer is written to it.
  pub on_events-sockets :
      (w w' : Worker d) (events_in : List Event) (effects : List Effect)
      → on_events libs w events_in ≡ (effects, done w')
      → map socket_of effects ≡ map (λ ev. ev.socket) events_in
  on_events-sockets w w' events_in effects e =
      subst (λ t. Touches t (map (λ ev. ev.socket) events_in)) e (on_events-Touches events_in w)
