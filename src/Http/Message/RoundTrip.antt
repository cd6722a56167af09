-- ===== src/Http/Message/RoundTrip.antt =====
-- A reply that `http_proto::to_raw` writes, read by `http_proto::parse`.
use highload_cup.Common.{
  ℕ, ◌^◌, ◌<◌, ◌≡◌, ◌≢◌, ◌∙◌, ap, subst, sym, true, false, List, [], ◌∷◌, Bytes, length, drop, All,
  ok, ◌>>=◌,
}
use highload_cup.Http.Method.{Method}
use highload_cup.Http.Status.{unknown, is_204}
use highload_cup.Http.Version.{Version, version_of}
use highload_cup.Http.Version.RoundTrip.{SplitsTwo, version_of-to_str, to_str-printed}
use highload_cup.Http.Message.{Message, construct, set_raw, Table}
use highload_cup.Http.Message.Raw.{to_raw}
use highload_cup.Http.Message.Raw.Lines.{reply_text, to_raw-lines}
use highload_cup.Http.Message.Parse.{parsed, parse}
use highload_cup.Http.Message.Parse.Lines.{IsValueByte}
use highload_cup.Http.Message.Parse.Table.{IsHeader}
use highload_cup.Http.Message.Raw.Headers.{IsOther, read_table}
use highload_cup.Http.Message.Replies.{reply_read}

-- A reply that `to_raw` writes with its data is read back: `parse` accepts it as complete, with its
-- status, its version, the length of the body, the body as what is left of the buffer, and a table
-- of headers, which has the lines that are written in their order (the status, the lines that
-- `to_raw` adds, the headers, the length), with names in small letters and of two lines with one
-- name the first: a header is lost if its name is, but for capitals, that of a line that `to_raw`
-- adds or that of an earlier header. The status has a text and is not 204; the version is of two
-- bytes; there are no cookies; the body is below 2^31 bytes and does not begin with a line end; the
-- names and values of the headers have no line ends, a name has no colon, is not empty, and is
-- neither that of a cookie nor that of the length; going over a map gives its entries in some order;
-- and the split takes two fields of digits apart. The reader is a fresh object, with any `m_method`
-- and `m_content_length`.
pub parse-to_raw :
    (order : (V : Type 0) → Table V → Table V) (expires : Bytes)
    (split : Bytes → Bytes → List Bytes) (unset : Version) (m : Message) (method : Method)
    (fresh b : ℕ) (rest : Bytes)
    → SplitsTwo split
    → m.cookies ≡ []
    → m.status ≢ unknown
    → is_204 m.status ≡ false
    → m.ver.byte1 < 256
    → m.ver.byte2 < 256
    → m.body ≡ b ∷ rest
    → IsValueByte b
    → length m.body < 2 ^ 31
    → All IsHeader (order Bytes m.headers)
    → All IsOther (order Bytes m.headers)
    → (text : Bytes) × (m' : Message) × (to_raw order expires false true m ≡ ok text)
      × (parse split unset false (set_raw (construct method fresh) text) ≡ parsed true m')
      × (m'.status ≡ m.status)
      × (m'.ver ≡ m.ver)
      × (m'.headers ≡ read_table m.status (order Bytes m.headers) m.body)
      × (m'.content_length ≡ length m.body)
      × (drop m'.current m'.raw ≡ m.body)
unfolding parse
parse-to_raw order expires split unset m method fresh b rest splits bare known has_length h k e
      value_b small headers others =
    let (ver, prints, full, plain) = to_str-printed m.ver h k in
    let hs = order Bytes m.headers in
    let reads : version_of split unset ver ≡ ok m.ver =
      sym (ap (λ r. r >>= version_of split unset) prints)
      ∙ version_of-to_str split splits unset m.ver h k in
    let (m', accepts, status, version, table, size, left) =
      reply_read split unset method fresh ver m.ver m.status hs b rest full plain reads known
        value_b (subst (λ s. length s < 2 ^ 31) e small) headers others in
    (
      reply_text ver m.status hs m.body,
      m',
      to_raw-lines order expires m ver bare has_length prints,
      rw e accepts,
      status,
      version,
      rw e table,
      rw e size,
      rw e left,
    )
