-- ===== src/Processor/Loop/Answered.antt =====
-- What a processor does with a text is one answer to its socket, by the reply that `serve` gives.
use highload_cup.Common.{ℕ, ◌≡◌, refl, sym, ap, ◌∙◌, true, false, [], ◌∷◌, Bytes, length, set}
use highload_cup.Http.Request.{Proto, Outcome, parsed, exception, out_of_bounds, parse, body}
use highload_cup.Store.HashMap.{HashMap}
use highload_cup.Store.Libs.{Libs, Run, done, refused, aborted, hung}
use highload_cup.Store.State.{Base}
use highload_cup.Processor.Answers.{Reply, send}
use highload_cup.Processor.Handle.{handle, serve}
use highload_cup.Processor.Handle.Isolated.{served, serve-served}
use highload_cup.Processor.Sends.{Frame, Flow}
use highload_cup.Processor.Sends.Parts.{said}
use highload_cup.Processor.Sends.Once.{handle_statements-said}
use highload_cup.Processor.Loop.{
  wrote, Event, Worker, Trace, ◌then_run◌, read_into, object_behind, frame_of, parsed_statements,
  answer_text,
}

module _ {d : HashMap} where
  -- The worker behind one answer.
  abbrev pub replied : Worker d → ℕ → Proto → Bytes → Run (Base d × Reply) → Trace (Worker d)
  replied w socket req buffer (done (base, reply)) =
      let (written, kept) = send w.m_answer200 reply in
      (
        wrote socket written ∷ [],
        done (record { base = base; req = req; buffer = buffer; m_answer200 = kept }),
      )
  replied w socket req buffer refused = ([], refused)
  replied w socket req buffer aborted = ([], aborted)
  replied w socket req buffer hung = ([], hung)

  -- The frame of a worker.
  abbrev frame : Worker d → Frame d
  frame w = record { base = w.base; m_answer200 = w.m_answer200 }

  abbrev resumed : Proto → Bytes → Flow d → Trace (Worker d)
  resumed req buffer flow = (
    [],
    done (record {
      base = (frame_of flow).base;
      req = req;
      buffer = buffer;
      m_answer200 = (frame_of flow).m_answer200;
    }),
  )

  said-replied :
      (w : Worker d) (socket : ℕ) (req : Proto) (buffer : Bytes) (r : Run (Base d × Reply))
      → (said socket (frame w) r then_run resumed req buffer) ≡ replied w socket req buffer r
  said-replied w socket req buffer (done (b, reply)) = refl
  said-replied w socket req buffer refused = refl
  said-replied w socket req buffer aborted = refl
  said-replied w socket req buffer hung = refl

module _ (libs : Libs) {d : HashMap} where
  parsed_statements-replied :
      (w : Worker d) (socket : ℕ) (req : Proto) (buffer : Bytes) (o : Outcome)
      → (parsed_statements libs socket o (frame w) then_run resumed req buffer)
        ≡ replied w socket req buffer (served libs w.base o)
  parsed_statements-replied w socket req buffer (parsed true req' buffer') =
      ap (λ t. t then_run resumed req buffer)
        (handle_statements-said socket libs req' (body req' buffer') (frame w))
      ∙ said-replied w socket req buffer (handle libs w.base req' (body req' buffer'))
  parsed_statements-replied w socket req buffer (parsed false req' buffer') = refl
  parsed_statements-replied w socket req buffer (exception e) = refl
  parsed_statements-replied w socket req buffer out_of_bounds = refl

  -- Whatever has been read, the processor writes the reply of `serve` to the socket and nothing
  -- else, and keeps the base that `serve` leaves; if `serve` does not return, nothing is written.
  pub answer_text-replied :
      (w : Worker d) (ev : Event) (text : Bytes)
      → answer_text libs w ev text
        ≡ replied w ev.socket
            (object_behind w.req ev.left (parse w.req (read_into text w.buffer) (length text)))
            (set (read_into text w.buffer) (length text) 0)
            (serve libs w.base w.req (read_into text w.buffer) (length text))
  unfolding answer_text
  answer_text-replied w ev text =
      let buffer = read_into text w.buffer in
      let req = object_behind w.req ev.left (parse w.req buffer (length text)) in
      let zeroed = set buffer (length text) 0 in
      parsed_statements-replied w ev.socket req zeroed (parse w.req buffer (length text))
      ∙ ap (replied w ev.socket req zeroed)
          (sym (serve-served libs w.base w.req buffer (length text)))
