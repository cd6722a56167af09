-- ===== src/Processor/Loop.antt =====
-- `processor::thread_function`, `processor::give` and the constructor (processor.cpp). What the
-- system calls return is an argument.
pub mod Answered
pub mod Effects
pub mod Stateless
use highload_cup.Common.{
  ℕ, ◌||◌, Bool, true, false, not, List, [], ◌∷◌, ◌++◌, Option, none, some, if◌then◌else◌, Bytes,
  length, drop, set, replicate,
}
use highload_cup.Http.Request.{Proto, Outcome, parsed, exception, out_of_bounds, parse, body}
use highload_cup.Store.HashMap.{HashMap}
use highload_cup.Store.Libs.{Libs, Run, done, refused, aborted, hung, ◌>>=◌}
use highload_cup.Store.State.{Base}
use highload_cup.Processor.Answers.{bad_request, send}
pub use highload_cup.Processor.Sends.{Effect, closed, wrote, socket_of, Trace, ◌then_run◌}
use highload_cup.Processor.Sends.{
  Frame, Flow, goes_on, has_left, Statement, send_call, handle_statements,
}

-- An event that `epoll_wait` reports: its socket, its flags, and what `read` then gives; `none` is
-- -1. `left` is the object as `parse` leaves it if it throws.
pub record Event : Type 0 where
  pub socket : ℕ
  pub err : Bool
  pub hup : Bool
  pub readable : Bool
  pub received : Option Bytes
  pub left : Proto

-- `epoll_wait` returns -1 or an array, which is empty where it returns 0; or the flag is up when
-- the loop comes to its test.
pub data Report : Type 0 where
  stopped failed : Report
  ready : List Event → Report

abbrev pub buffer_size : ℕ
buffer_size = 1024

-- The variables of the thread, with the base that it shares.
pub record Worker (d : HashMap) : Type 0 where
  pub base : Base d
  pub req : Proto
  pub buffer : Bytes
  pub m_answer200 : Bytes

-- `read` into the start of the buffer.
abbrev pub read_into : Bytes → Bytes → Bytes
read_into text buffer = text ++ drop (length text) buffer

-- The object behind a call of `parse`.
abbrev pub object_behind : Proto → Proto → Outcome → Proto
object_behind req left (parsed res req' buffer') = req'
object_behind req left (exception e) = left
object_behind req left out_of_bounds = req

-- The text that `read` gives for an event; `none` where the socket is closed instead.
abbrev pub text_of : Event → Option Bytes
text_of ev = if ev.err || (ev.hup || not ev.readable) then none else elim ev.received [
  | none ↦ none
  | some text ↦ elim text [ [] ↦ none | c ∷ cs ↦ some (c ∷ cs) ]
]

module _ {d : HashMap} where
  -- What a statement that has been run leaves to the thread.
  abbrev pub frame_of : Flow d → Frame d
  frame_of (goes_on f) = f
  frame_of (has_left f) = f

module _ (libs : Libs) {d : HashMap} where
  -- `if (parse_ok) this->handle(socket, req);`, or the answer that the text is no request. A write
  -- behind the end of the buffer has no defined behaviour; it stands among the ends of the process.
  abbrev pub parsed_statements : ℕ → Outcome → Statement d
  parsed_statements socket (parsed true req buffer) =
      handle_statements socket libs req (body req buffer)
  parsed_statements socket (parsed false req buffer) = send_call socket bad_request
  parsed_statements socket (exception e) = send_call socket bad_request
  parsed_statements socket out_of_bounds = λ f. ([], aborted)

  -- What has been read is parsed and answered. All that `parse` writes to the buffer is the zero.
  unfoldable pub answer_text : Worker d → Event → Bytes → Trace (Worker d)
  unfolding parse handle_statements body send
  answer_text w ev text =
      let buffer = read_into text w.buffer in
      let outcome = parse w.req buffer (length text) in
      let f : Frame d = record { base = w.base; m_answer200 = w.m_answer200 } in
      parsed_statements ev.socket outcome f then_run λ flow. (
        [],
        done (record {
          base = (frame_of flow).base;
          req = object_behind w.req ev.left outcome;
          buffer = set buffer (length text) 0;
          m_answer200 = (frame_of flow).m_answer200;
        }),
      )

  -- The body of the loop over the events.
  unfoldable pub on_event : Worker d → Event → Trace (Worker d)
  unfolding answer_text
  on_event w ev = elim (text_of ev) [
    | none ↦ (closed ev.socket ∷ [], done w)
    | some text ↦ answer_text w ev text
  ]

  unfoldable pub on_events : Worker d → List Event → Trace (Worker d)
  unfolding on_event
  on_events w [] = ([], done w)
  on_events w (ev ∷ events_in) = on_event w ev then_run λ w'. on_events w' events_in

  -- The outer loop, over some reports; behind the last one it waits.
  unfoldable pub on_reports : Worker d → List Report → Trace (Worker d)
  unfolding on_events
  on_reports w [] = ([], done w)
  on_reports w (stopped ∷ reports) = ([], done w)
  on_reports w (failed ∷ reports) = ([], done w)
  on_reports w (ready events_in ∷ reports) =
      on_events w events_in then_run λ w'. on_reports w' reports

  -- The thread: whether `epoll_create1` succeeds, and the members of the object before the first
  -- request, which the constructor does not set.
  unfoldable pub thread_function : Base d → Proto → Bool → List Report → Trace (Worker d)
  unfolding on_reports
  thread_function base req created reports =
      let w : Worker d = record {
        base = base;
        req = req;
        buffer = replicate buffer_size 0;
        m_answer200 = [];
      } in
      if created then on_reports w reports else ([], done w)

-- `give`: whether `epoll_ctl` succeeds.
unfoldable pub give : Bool → ℕ → List Effect
give true socket = []
give false socket = closed socket ∷ []
