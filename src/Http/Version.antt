-- ===== src/Http/Version.antt =====
-- `ver_t` (include/http_proto.h, include/http_proto.cpp). `util::split` is that of boost, a parameter.
pub mod RoundTrip
use highload_cup.Common.{
  ℕ, ◌+◌, Bool, true, false, List, ◌++◌, Option, none, some, ltb, ◌==◌, if◌then◌else◌, Bytes, codes,
  get_elem?, drop, Result, ok, ◌>>=◌,
}
use highload_cup.Util.Numbers.{format_uchar, itoa}
use highload_cup.Util.Text.{find_text}

pub record Version : Type 0 where
  pub byte1 : ℕ
  pub byte2 : ℕ

-- `ver_t()`.
abbrev pub zero_version : Version
zero_version = record { byte1 = 0; byte2 = 0 }

-- `if (res->size() > i) byte = format<unsigned char>(res->at(i))`.
abbrev pub byte_of : Option Bytes → ℕ → Result ℕ
byte_of none unset = ok unset
byte_of (some field) unset = format_uchar field

-- `ver_t(str)`: a byte that the text does not give keeps what was in the memory, `unset`.
unfoldable pub version_of : (Bytes → Bytes → List Bytes) → Version → Bytes → Result Version
unfolding format_uchar find_text
version_of split unset str = elim (find_text (codes "HTTP/") str 0) [
  | none ↦ ok unset
  | some pos ↦
      let res = split (drop (pos + 5) str) (codes ".") in
      byte_of (get_elem? res 0) unset.byte1 >>= λ byte1.
      byte_of (get_elem? res 1) unset.byte2 >>= λ byte2.
      ok (record { byte1 = byte1; byte2 = byte2 })
]

-- `operator<`.
unfoldable pub less : Version → Version → Bool
less v w =
    if ltb v.byte1 w.byte1
    then true
    else if v.byte1 == w.byte1
    then (if ltb v.byte2 w.byte2 then true else false)
    else false

-- The stream writes a byte by `util::itoa`.
unfoldable pub to_str : Version → Result Bytes
unfolding itoa
to_str v = itoa v.byte1 10 >>= λ first.
    itoa v.byte2 10 >>= λ second. ok (codes "HTTP/" ++ (first ++ (codes "." ++ second)))
