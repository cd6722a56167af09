-- ===== src/Http/Params/FieldAt.antt =====
-- One written parameter, cut out by `field_at`.
use highload_cup.Common.{
  ◌+◌, ◌≡◌, ◌≢◌, refl, true, [], ◌∷◌, ◌++◌, arith, Bytes, length, length-append, slice,
  slice-append, append_assoc, ok,
}
use highload_cup.Http.Quote.{quote}
use highload_cup.Http.Quote.RoundTrip.{AllBytes, unquote-quote}
use highload_cup.Http.Params.Written.{written}
use highload_cup.Http.Params.{named, field_at}

named_lem : (k v : Bytes) → k ≢ [] → named k v ≡ ok (k, v)
unfolding named
named_lem [] v h = absurd (h refl)
named_lem (c ∷ cs) v h = refl

module _ (before rest k v : Bytes) (hk : AllBytes k) (hv : AllBytes v) (ne : k ≢ []) where
  name_slice : slice (before ++ written (k, v) rest) (length before) (length (quote k)) ≡ quote k
  name_slice = slice-append before (quote k) (b'=' ∷ (quote v ++ rest)) _ _ refl refl

  value_slice :
      slice
        (before ++ written (k, v) rest)
        (length before + length (quote k) + 1)
        (length (quote v))
      ≡ quote v
  value_slice =
      let front = before ++ (quote k ++ b'=' ∷ []) in
      let regroup : before ++ written (k, v) rest ≡ front ++ (quote v ++ rest) =
        rw (append_assoc, append_assoc) in
      rw regroup (
        slice-append front (quote v) rest _ _
          (omega (
            arith,
            length-append before (quote k ++ b'=' ∷ []),
            length-append (quote k) (b'=' ∷ []),
          ))
          refl)

  pub field_at_lem :
      field_at
        (before ++ written (k, v) rest)
        true
        (length before)
        (length (quote k))
        (length before + length (quote k) + 1)
        (length (quote v))
      ≡ ok (k, v)
  unfolding field_at
  field_at_lem =
      rw (name_slice, value_slice, unquote-quote k hk, unquote-quote v hv) (named_lem k v ne)
