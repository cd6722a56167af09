-- ===== src/Lib.antt =====
-- Models of the HighloadCup server: the requests it reads, the base of users, locations and visits
-- that it keeps in memory, and the thread that keeps the indexes of the base.
--
-- The parts and the files. A processor (processor.cpp) reads a socket into a buffer of 1024 bytes,
-- parses the text (include/sp_http_proto.cpp), takes the path apart, and calls the base (base.cpp),
-- whose answer it sends. A write to the base queues work for the thread of the base.
--   Util/Numbers: util::itoa, util::atoi and util::set_all_bits (include/util.h), with the
--     instances of `format` (include/format.cpp) that the server calls.
--   Http/Quote: recode_char, unquote and quote (include/http_proto.cpp).
--   Http/Method: method_t and its conversions.
--   Http/Params: sp_http_proto::parse_urlencoded, over any callback, and the loop of
--     http_proto::to_raw that writes a query string.
--   Http/Request: sp_http_proto::parse as a state machine, one function per state.
--   Http/Status, Http/Version: status_t and ver_t (include/http_proto.cpp).
--   Http/Message: the class http_proto (include/http_proto.cpp), the full form of the protocol:
--     the object and its accessors; Parse, one function per state, for requests and replies; Body
--     and Multipart, the bodies of a POST; Raw, the text that to_raw writes.
--   Util/Text: trim, escape_html, ins and remove_end_slash (include/util.cpp).
--   Util/Accounts: getpwnam and getgrnam over the text of the file (include/util.cpp).
--   Util/Values: get_val, string_to_vector (include/util.h), get_random_string and get_files_list
--     (include/util.cpp), and `format` of texts, truth values and lists (include/format.cpp).
--   Log: the levels of include/log.h and the line that one object writes.
--   Server, Server/Start: hl_server (hl_server.cpp) over what the system calls return;
--     Server/Loader: `load` (highloadcup.cpp) behind the unpacking of the archive; Server/Main:
--     `heating`, which nothing calls, and `main`.
--   Store/Libs and Store/HashMap: what base.cpp takes from outside the repository, as parameters:
--     rapidjson, mktime, double arithmetic with sprintf, and google::dense_hash_map with its
--     documented rules (no empty key, what find gives behind each call).
--   Store/User, Store/Location, Store/Visit: the classes of base.h, over the checks in Store/Fields
--     and the length of a text in Store/Utf8.
--   Store/State: `class base`. A shared pointer is an address into a heap, so that the table, the
--     queues and the worker share an object as they do in the source.
--   Store/Insert, Store/Update, Store/Read: the operations of the base.
--   Store/Worker: base::thread_function, as one round; Store/Worker/Steps has the critical sections
--     of the handlers and the tasks of the worker as steps that may come in any order.
--   Store/Cache: the texts that users and locations keep of themselves, and sequences of calls.
--   Processor: processor::handle as a function, from the bytes of the buffer to the reply.
--     Processor/Handle/Table joins this to the base behind calls and rounds of the worker.
--     Processor/Sends: handle by its statements, each send and each return in its place.
--     Processor/Loop: the thread of a processor over what epoll_wait and read give, and beside it,
--     in Stateless, the service that it implements.
--   Common: lists, tests, integers and results that these share. Examples: concrete inputs.
--
-- Numbers are natural numbers, with the wrap-around of the source's type written out. A byte is a
-- number below 256. A call of the base returns, gives up, ends the process or never ends (`Run`).
--
-- Fuel. `itoa_loop` has 64 rounds: a value of 64 bits has at most 64 digits in a base from 2.
-- `set_bits_loop` has one round more than the type has bits. `to_string` has 20 rounds, for 64
-- bits. `utf8_loop` has one round more than the text has bytes: each round of a valid text takes
-- a byte or more; an invalid text may loop for ever, which is `hung`.
--
-- The loop of `offset_utf8` has the same fuel. The loop of `parse_multipart` has two rounds for
-- each byte of the buffer and one more: only the end of a content type takes a round that does
-- not move on.
--
-- Not modelled: what the system does behind a call on a socket, the unpacking of the archive,
-- the redirection of the log, the files, processes and time of include/util.cpp, smart pointers
-- and streams. boost::split, the order of an unordered map and the clock are parameters
-- of the functions that use them. An exception loses the object that `http_proto::parse` has
-- begun to fill. A step of the worker and a section of a handler are each taken as one step,
-- though the worker writes the indexes with no lock that the readers hold.
mod Common
pub mod Util
pub mod Http
pub mod Store
pub mod Processor
pub mod Log
pub mod Server
pub mod Examples
