-- ===== src/Http/Method.antt =====
-- `method_t` (include/http_proto.h) and its conversions (include/http_proto.cpp and
-- include/sp_http_proto.cpp).
use highload_cup.Common.{Bool, true, false, if◌then◌else◌, Bytes, codes, bytes_eq, ◌≡◌, refl}

pub data Method : Type 0 where
  options get head post put delete trace connect patch unknown : Method

-- `sp_http_proto::method_from_str`: the server knows two methods.
unfoldable pub method_from_str : Bytes → Method
method_from_str method =
    if bytes_eq method (codes "GET")
    then get
    else if bytes_eq method (codes "POST")
    then post
    else unknown

-- `==` on `method_t`.
abbrev pub is_get : Method → Bool
is_get get = true
is_get _ = false

abbrev pub is_post : Method → Bool
is_post post = true
is_post _ = false

-- `http_proto::method_to_str` and `http_proto::method_from_str`.
unfoldable pub method_to_str : Method → Bytes
method_to_str options = codes "OPTIONS"
method_to_str get = codes "GET"
method_to_str head = codes "HEAD"
method_to_str post = codes "POST"
method_to_str put = codes "PUT"
method_to_str delete = codes "DELETE"
method_to_str trace = codes "TRACE"
method_to_str connect = codes "CONNECT"
method_to_str patch = codes "PATCH"
method_to_str unknown = codes "UNKNOWN"

unfoldable pub full_method_from_str : Bytes → Method
full_method_from_str method =
    if bytes_eq method (codes "OPTIONS")
    then options
    else if bytes_eq method (codes "GET")
    then get
    else if bytes_eq method (codes "HEAD")
    then head
    else if bytes_eq method (codes "POST")
    then post
    else if bytes_eq method (codes "PUT")
    then put
    else if bytes_eq method (codes "DELETE")
    then delete
    else if bytes_eq method (codes "TRACE")
    then trace
    else if bytes_eq method (codes "CONNECT")
    then connect
    else if bytes_eq method (codes "PATCH")
    then patch
    else unknown

-- Every method that `method_to_str` prints is read back.
pub full_method_from_str-method_to_str : (m : Method) → full_method_from_str (method_to_str m) ≡ m
unfolding full_method_from_str method_to_str
full_method_from_str-method_to_str options = refl
full_method_from_str-method_to_str _ = refl
