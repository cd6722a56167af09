-- ===== src/Examples/Loop.antt =====
-- The loop of a processor over some events.
use highload_cup.Common.{
  ◌≡◌, refl, true, false, List, [], ◌∷◌, ◌++◌, Bytes, codes, map, some, replicate,
}
use highload_cup.Http.Method.{get, unknown}
use highload_cup.Http.Request.{Proto}
use highload_cup.Store.Libs.{done}
use highload_cup.Store.State.{Base, construct}
use highload_cup.Store.Instances.{list_map, known_libs, new_year}
use highload_cup.Processor.Answers.{answer404}
use highload_cup.Processor.Loop.{
  closed, wrote, socket_of, Event, ready, failed, Worker, on_events, thread_function,
}
use highload_cup.Processor.Handle.{handle}
use highload_cup.Processor.Sends.{Frame, handle_statements}
use highload_cup.Processor.Sends.Parts.{said}
use highload_cup.Processor.Sends.Once.{handle_statements-said}
use highload_cup.Processor.Loop.Effects.{on_events-sockets}
use highload_cup.Processor.Loop.Stateless.{service_reports, forget}
use highload_cup.Processor.Loop.Stateless.Refines.{thread_function-service}

abbrev start_base : Base list_map
start_base = construct list_map known_libs new_year

abbrev unset : Proto
unset = record { params = []; method = unknown; path = []; body_at = 0 }

abbrev asked : Bytes
asked = codes "GET /users/1 HTTP/1.1\n\n"

abbrev event_of : Bytes → Event
event_of text = record {
  socket = 5;
  err = false;
  hup = false;
  readable = true;
  received = some text;
  left = unset;
}

abbrev gone : Event
gone = record (event_of []) { socket = 7; hup = true }

abbrev two_events : List Event
two_events = gone ∷ event_of asked ∷ []

thread_function-service_example :
    forget (thread_function known_libs start_base unset true (ready two_events ∷ failed ∷ []))
    ≡ service_reports known_libs start_base (ready two_events ∷ failed ∷ [])
thread_function-service_example =
    thread_function-service known_libs start_base unset (ready two_events ∷ failed ∷ [])

abbrev idle : Worker list_map
idle = record { base = start_base; req = unset; buffer = replicate 30 b'x'; m_answer200 = [] }

abbrev behind : Worker list_map
behind = record {
  base = start_base;
  req = record { params = []; method = get; path = codes "/users/1"; body_at = 23 };
  buffer = asked ++ 0 ∷ replicate 6 b'x';
  m_answer200 = [];
}

worked_off : on_events known_libs idle two_events ≡ (closed 7 ∷ wrote 5 answer404 ∷ [], done behind)
unfolding on_events construct
worked_off = refl

on_events-sockets_example :
    map socket_of (closed 7 ∷ wrote 5 answer404 ∷ []) ≡ map (λ ev. ev.socket) two_events
on_events-sockets_example =
    on_events-sockets known_libs idle behind two_events (closed 7 ∷ wrote 5 answer404 ∷ [])
      worked_off

abbrev frame : Frame list_map
frame = record { base = start_base; m_answer200 = codes "old" }

handle_statements-said_example :
    handle_statements 5 known_libs behind.req [] frame
    ≡ said 5 frame (handle known_libs start_base behind.req [])
handle_statements-said_example = handle_statements-said 5 known_libs behind.req [] frame
