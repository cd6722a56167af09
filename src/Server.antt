-- ===== src/Server.antt =====
-- `class hl_server` (hl_server.h, hl_server.cpp): the listening socket, and how the connections go
-- to the processors. What the system calls return is an argument.
pub mod Turns
pub mod Loader
pub mod Start
pub mod Main
use highload_cup.Common.{
  ℕ, zero, suc, ◌+◌, ◌%◌, Bool, true, false, not, ◌||◌, List, [], ◌∷◌, ◌++◌, Option, none, some,
  if◌then◌else◌,
}

-- `num` of the constructor.
abbrev pub threads_amount : ℕ
threads_amount = 3

-- An address of the list of `getaddrinfo`: what `socket` returns (`none` is -1), and whether `bind`
-- succeeds.
pub record Address : Type 0 where
  pub socket : Option ℕ
  pub binds : Bool

-- The loop of `create_and_bind`: the socket that is bound, and those that are closed before it.
-- `none` is the exception behind the loop.
unfoldable pub bind_first : List Address → Option ℕ × List ℕ
bind_first [] = (none, [])
bind_first (rp ∷ result) = elim rp.socket [
  | none ↦ bind_first result
  | some listen_socket ↦
      let (bound, closed) = bind_first result in
      if rp.binds then (some listen_socket, []) else (bound, listen_socket ∷ closed)
]

-- The inner loop of `run`: each socket that `accept` returns, with the processor that it is given
-- to, and the counter behind it.
unfoldable pub give_all : ℕ → ℕ → List ℕ → List (ℕ × ℕ) × ℕ
give_all amount threads_counter [] = ([], threads_counter)
give_all amount threads_counter (socket_in ∷ rest) =
    let next = (threads_counter + 1) % amount in
    let (given, last) = give_all amount next rest in ((next, socket_in) ∷ given, last)

-- What `epoll_wait` reports: -1, 0, or an event with its flags and the sockets that `accept` then
-- returns before its first -1.
pub data Poll : Type 0 where
  failed nothing : Poll
  event : Bool → Bool → Bool → List ℕ → Poll

-- How far the outer loop of `run` has come over some reports.
pub data Served : Type 0 where
  waiting thrown : List (ℕ × ℕ) → Served

abbrev pub before : List (ℕ × ℕ) → Served → Served
before given (waiting rest) = waiting (given ++ rest)
before given (thrown rest) = thrown (given ++ rest)

unfoldable pub run : ℕ → ℕ → List Poll → Served
unfolding give_all
run amount threads_counter [] = waiting []
run amount threads_counter (failed ∷ polls) = thrown []
run amount threads_counter (nothing ∷ polls) = run amount threads_counter polls
run amount threads_counter (event err hup readable accepted ∷ polls) =
    let (given, last) = give_all amount threads_counter accepted in
    let rest = run amount last polls in
    if err || (hup || not readable) then thrown [] else before given rest
