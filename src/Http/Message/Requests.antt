-- ===== src/Http/Message/Requests.antt =====
-- A request that `http_proto::to_raw` writes, read by `http_proto::parse`.
use highload_cup.Common.{
  arith, ℕ, ◌+◌, ◌<◌, ◌≡◌, ◌∙◌, ap, refl, sym, Bool, true, List, [], ◌++◌, Bytes, codes, length,
  append_assoc, All, ok, ◌>>=◌,
}
use highload_cup.Http.Method.{Method, get, is_get, method_to_str, full_method_from_str}
use highload_cup.Http.Version.{Version, version_of}
use highload_cup.Http.Version.RoundTrip.{SplitsTwo, version_of-to_str, to_str-IsQueryByte}
use highload_cup.Http.Params.Written.{IsWritable}
use highload_cup.Http.Message.{Message, Table, construct, set_raw}
use highload_cup.Http.Message.RequestHead.{asked, front, head_read}
use highload_cup.Http.Message.Gets.{IsMap}
use highload_cup.Http.Message.Raw.{header_loop, to_raw}
use highload_cup.Http.Message.Raw.Requests.{KeepsLength, request_text, to_raw-request}
use highload_cup.Http.Message.Parse.{parsed, parse}
use highload_cup.Http.Message.Parse.RequestEnd.{request_end_read}
use highload_cup.Http.Message.Parse.Table.{IsHeader, add_all, at_line}
use highload_cup.Http.Message.Parse.RequestParts.{IsPathByte, path_plain}

-- A GET request that `to_raw` writes is read back: `parse` accepts it as complete, with its method,
-- its path, its parameters in the order in which they were written, its version, and its headers
-- (names in small letters, of two lines with one name the first). The path is not empty and has no
-- space and no question mark; the parameters are of bytes, no name stands twice or is empty, and
-- the last value is not empty; the version is of two bytes; there are no cookies and no fields of a form; the
-- names and values of the headers have no line ends, a name has no colon, is not empty and is not that of a
-- cookie; the split takes two fields of digits apart, and going over a map gives each entry
-- once. The reader is a fresh object, with any `m_method` and `m_content_length`.
pub parse-to_raw_get :
    (order : (V : Type 0) → Table V → Table V) (expires : Bytes)
    (split : Bytes → Bytes → List Bytes) (unset : Version) (m : Message) (include_data : Bool)
    (method : Method) (fresh : ℕ)
    → SplitsTwo split
    → KeepsLength order
    → m.method ≡ get
    → 0 < length m.path
    → All IsPathByte m.path
    → IsWritable (order Bytes m.gets)
    → IsMap (order Bytes m.gets)
    → m.ver.byte1 < 256
    → m.ver.byte2 < 256
    → m.cookies ≡ []
    → m.posts ≡ []
    → All IsHeader (order Bytes m.headers)
    → (text : Bytes) × (m' : Message) × (to_raw order expires true include_data m ≡ ok text)
      × (parse split unset true (set_raw (construct method fresh) text) ≡ parsed true m')
      × (m'.method ≡ get)
      × (m'.path ≡ m.path)
      × (m'.gets ≡ order Bytes m.gets)
      × (m'.ver ≡ m.ver)
      × (m'.headers ≡ add_all (order Bytes m.headers) [])
unfolding parse method_to_str full_method_from_str
parse-to_raw_get order expires split unset m include_data method fresh splits keeps is_get full
      plain writable map h k bare form headers =
    let (ver, prints, full', plain') = to_str-IsQueryByte m.ver h k in
    let ps = order Bytes m.gets in
    let hs = order Bytes m.headers in
    let reads : version_of split unset ver ≡ ok m.ver =
      sym (ap (λ r. r >>= version_of split unset) prints)
      ∙ version_of-to_str split splits unset m.ver h k in
    let back = header_loop hs ++ codes "\r\n\r\n" in
    let first = front split unset method fresh (codes "GET") m.path ver back m.ver ps in
    let (c, below, head) =
      head_read split unset method fresh (codes "GET") m.path ver (codes "\r\n\r\n") m.ver ps hs
        (omega arith) (omega arith) full plain writable map full' plain' reads headers in
    let n = length first + length (header_loop hs) in
    let start =
      asked (set_raw (construct method fresh) (first ++ back)) (codes "GET") m.path ps m.ver
        (length first) in
    let t = add_all hs [] in
    let text : request_text m ver ps hs ≡ first ++ back = rw is_get (simp append_assoc) in
    (
      first ++ back,
      at_line start t c (n + 1),
      to_raw-request order expires m ver ps include_data bare form keeps refl
            (path_plain m.path plain) prints
          ∙ ap (λ s. ok s) text,
      head ∙ request_end_read split unset n c t start below refl,
      refl,
      refl,
      refl,
      refl,
      refl,
    )
