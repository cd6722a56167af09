-- ===== src/Http/Status.antt =====
-- `status_t` (include/http_proto.h) and its conversions (include/http_proto.cpp).
pub mod Words
use highload_cup.Common.{
  ℕ, ◌≡◌, ◌≢◌, refl, Bool, true, false, take, ◌==◌, if◌then◌else◌, Bytes, codes, Result, ok, ◌>>=◌,
}
use highload_cup.Util.Numbers.{format_size}

pub data Status : Type 0 where
  s200 s204 s302 s400 s403 s404 s405 s500 s501 unknown : Status

-- `==` with `SUNKNOWN` and with `S204`.
abbrev pub is_unknown : Status → Bool
is_unknown unknown = true
is_unknown _ = false

abbrev pub is_204 : Status → Bool
is_204 s204 = true
is_204 _ = false

unfoldable pub status_to_str : Status → Bytes
status_to_str s200 = codes "200 OK"
status_to_str s204 = codes "204 No Content"
status_to_str s302 = codes "302 Found"
status_to_str s400 = codes "400 Bad Request"
status_to_str s403 = codes "403 Forbidden"
status_to_str s404 = codes "404 Not Found"
status_to_str s405 = codes "405 Method Not Allowed"
status_to_str s500 = codes "500 Internal Server Error"
status_to_str s501 = codes "501 Not Implemented"
status_to_str unknown = codes ""

unfoldable pub status_from_int : ℕ → Status
status_from_int status =
    if status == 200
    then s200
    else if status == 204
    then s204
    else if status == 302
    then s302
    else if status == 400
    then s400
    else if status == 403
    then s403
    else if status == 404
    then s404
    else if status == 405
    then s405
    else if status == 500
    then s500
    else if status == 501
    then s501
    else unknown

-- The first word of a status line names the status again, for every status that has a text.
pub status_from_int-status_to_str :
    (status : Status)
    → status ≢ unknown
    → (format_size (take 3 (status_to_str status)) >>= λ n. ok (status_from_int n)) ≡ ok status
unfolding format_size status_to_str status_from_int
status_from_int-status_to_str s200 h = refl
status_from_int-status_to_str s204 h = refl
status_from_int-status_to_str s302 h = refl
status_from_int-status_to_str s400 h = refl
status_from_int-status_to_str s403 h = refl
status_from_int-status_to_str s404 h = refl
status_from_int-status_to_str s405 h = refl
status_from_int-status_to_str s500 h = refl
status_from_int-status_to_str s501 h = refl
status_from_int-status_to_str unknown h = absurd (h refl)
