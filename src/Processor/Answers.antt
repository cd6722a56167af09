-- ===== src/Processor/Answers.antt =====
-- The answers of a processor (processor.h). What is written to the socket is a text.
use highload_cup.Common.{◌++◌, if◌then◌else◌, Bytes, codes, length, take}
use highload_cup.Common.Text.{to_string}
use highload_cup.Store.User.{is_empty}

-- The constant text of `send200`.
abbrev pub answer200 : Bytes
answer200 =
    codes
      "HTTP/1.1 200 OK\r\nStatus: 200 OK\r\nServer: SP (0.1)\r\nConnection: keep-alive\r\nContent-Type: application/json; charset=utf-8\r\nContent-Length: "

abbrev pub answer404 : Bytes
answer404 =
    codes
      "HTTP/1.1 404 Not Found\r\nStatus: 404 Not Found\r\nServer: SP (0.1)\r\nConnection: keep-alive\r\nContent-Type: application/json; charset=utf-8\r\nContent-Length: 0\r\n\r\n"

abbrev pub answer400 : Bytes
answer400 =
    codes
      "HTTP/1.1 400 Bad Request\r\nStatus: 400 Bad Request\r\nServer: SP (0.1)\r\nConnection: keep-alive\r\nContent-Length: 0\r\n\r\n"

abbrev pub brackets : Bytes
brackets =
    codes
      "HTTP/1.1 200 OK\r\nStatus: 200 OK\r\nServer: SP (0.1)\r\nConnection: keep-alive\r\nContent-Type: application/json; charset=utf-8\r\nContent-Length: 2\r\n\r\n{}"

-- `m_answer200` is empty, or starts with the constant text and has an old answer behind it.
-- `resize` cuts it down to the length of the constant text.
unfoldable pub send200 : Bytes → Bytes → Bytes
unfolding to_string
send200 m_answer200 text =
    (if is_empty m_answer200 then answer200 else take (length answer200) m_answer200)
    ++ (to_string (length text) ++ (codes "\r\n\r\n" ++ text))

-- One call of a `send` function.
pub data Reply : Type 0 where
  ok200 : Bytes → Reply
  not_found bad_request empty_object : Reply

-- The bytes that are written, and `m_answer200`.
unfoldable pub send : Bytes → Reply → Bytes × Bytes
unfolding send200
send m_answer200 (ok200 text) = let res = send200 m_answer200 text in (res, res)
send m_answer200 not_found = (answer404, m_answer200)
send m_answer200 bad_request = (answer400, m_answer200)
send m_answer200 empty_object = (brackets, m_answer200)
