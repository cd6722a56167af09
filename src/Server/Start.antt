-- ===== src/Server/Start.antt =====
-- `hl_server::create_and_bind`, `make_socket_non_blocking`, the whole of `hl_server::run`
-- (hl_server.cpp). What the system calls return is an argument.
use Prim.Native.Nat.{bit_or}
use highload_cup.Common.{ℕ, Bool, true, false, List, [], ◌++◌, Option, none, some, Bytes, codes}
use highload_cup.Server.{threads_amount, Address, bind_first, Poll, Served, thrown, run}

-- A call returns, or throws a `std::runtime_error` with a text.
pub data Attempt (A : Type 0) : Type 0 where
  returned : A → Attempt A
  raised : Bytes → Attempt A

infixl 5 ◌>>=◌
abbrev pub ◌>>=◌ : {A B : Type 0} → Attempt A → (A → Attempt B) → Attempt B
returned a >>= f = f a
raised text >>= f = raised text

-- `if (-1 == ...) throw std::runtime_error(text)`.
abbrev pub or_raise : {A : Type 0} → Option A → Bytes → Attempt A
or_raise none text = raised text
or_raise (some a) text = returned a

abbrev pub check : Bool → Bytes → Attempt (Unit {0})
check true text = returned tt
check false text = raised text

-- `getaddrinfo`: the list of addresses, or the text of `gai_strerror`.
pub data Lookup : Type 0 where
  found : List Address → Lookup
  unknown : Bytes → Lookup

unfoldable pub create_and_bind : Lookup → Attempt ℕ
unfolding bind_first
create_and_bind (unknown error) = raised (codes "getaddrinfo: " ++ error)
create_and_bind (found result) = or_raise (bind_first result).0 (codes "Could not bind")

-- The flags that `F_GETFL` gives, whether `F_SETFL` succeeds, and the flag O_NONBLOCK of the
-- system: the flags that are set.
unfoldable pub make_socket_non_blocking : ℕ → Option ℕ → Bool → Attempt ℕ
make_socket_non_blocking nonblock got set_ok = or_raise got (codes "fcntl(1)") >>= λ flags.
    check set_ok (codes "fcntl(2)") >>= λ _. returned (bit_or flags nonblock)

-- What the calls of `run` in front of its loop return.
pub record System : Type 0 where
  pub addresses : Lookup
  pub nonblock : ℕ
  pub flags : Option ℕ
  pub flags_set : Bool
  pub listens : Bool
  pub epoll : Option ℕ
  pub added : Bool

-- Up to the loop: the listening socket.
unfoldable pub start : System → Attempt ℕ
unfolding create_and_bind make_socket_non_blocking
start s = create_and_bind s.addresses >>= λ listen_socket.
    make_socket_non_blocking s.nonblock s.flags s.flags_set >>= λ _.
    check s.listens (codes "listen") >>= λ _. or_raise s.epoll (codes "epoll_create") >>= λ _.
    check s.added (codes "epoll_ctl(1)") >>= λ _. returned listen_socket

-- `run`: the connections that have been given to processors, and whether an exception has ended it.
unfoldable pub run_server : System → List Poll → Served
unfolding start run
run_server s polls = elim (start s) [
  | raised text ↦ thrown []
  | returned listen_socket ↦ run threads_amount 0 polls
]
