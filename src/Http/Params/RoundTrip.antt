-- ===== src/Http/Params/RoundTrip.antt =====
-- `parse_urlencoded` reads back what the loop of `to_raw` writes.
use mathlib.Core.List.{foldl}
use highload_cup.Common.{
  ℕ, ◌+◌, ◌-◌, ◌<◌, ◌≡◌, ◌≢◌, refl, sym, ap, subst, ◌∙◌, true, List, [], ◌∷◌, ◌++◌, arith, Bytes,
  length, length-append, slice-append, All, append-nil, append_assoc, Result, ok, ◌>>=◌,
}
use highload_cup.Http.Quote.{quote}
use highload_cup.Http.Quote.RoundTrip.{AllBytes, IsPlain, quote-IsPlain, quote-ne-nil}
use highload_cup.Http.Params.Steps.{
  ends, All-append_left, All-append_right, run, skip_name, skip_value, at_equals, at_separator,
  at_last,
}
use highload_cup.Http.Params.Written.{
  Param, IsWritable, written, text, length-written, written-append, query_string-text,
}
use highload_cup.Http.Params.{Scan, hand_over, scan, parse_urlencoded, query_string}
use highload_cup.Http.Params.FieldAt.{field_at_lem}

module _ {S : Type 0} (func : S → Bytes → Bytes → S) where
  -- The variables at the start of a name.
  abbrev at_name : ℕ → ℕ → S → Scan S
  at_name start size s = record { name_start = start; name_size = size; value_start = 0; sink = s }

  -- The variables at the start of a value.
  abbrev at_value : ℕ → ℕ → S → Scan S
  at_value start size s = record {
    name_start = start;
    name_size = size;
    value_start = start + size + 1;
    sink = s;
  }

  -- Reading a name and its `=`.
  run_name :
      (raw k rest : Bytes) (off_end start size : ℕ) (s : S)
      → All IsPlain k
      → run raw off_end func (k ++ b'=' ∷ rest) start (at_name start size s)
        ≡ run raw off_end func rest (start + length k + 1) (at_value start (length k) s)
  unfolding scan
  run_name raw k rest off_end start size s h =
      let v = at_name start size s in
      let measured : start + length k - start ≡ length k = omega arith in
      rw (
        skip_name raw off_end func k (b'=' ∷ rest) start v h refl,
        at_equals raw off_end func v (start + length k) refl,
        measured,
      )

  module _ (before k v more : Bytes) (off_end : ℕ) (s : S) (hk : AllBytes k) (hv : AllBytes v)
      (ne : k ≢ []) where
    abbrev value_at : ℕ
    value_at = length before + length (quote k) + 1

    abbrev value_end : ℕ
    value_end = value_at + length (quote v)

    abbrev reads : Bytes → ℕ → Scan S → Result (Scan S)
    reads = run (before ++ written (k, v) more) off_end func

    handed :
        (count size : ℕ)
        → size ≡ length (quote v)
        → hand_over
            (before ++ written (k, v) more)
            off_end
            func
            b'&'
            true
            count
            (at_value (length before) (length (quote k)) s)
            size
          ≡ ok (at_name (count + 1) (length (quote k)) (func s k v))
    unfolding hand_over
    handed count size e = rw (e, field_at_lem before more k v hk hv ne)

    -- Reading a value and the `&` behind it.
    run_value :
        (rest : Bytes)
        → value_end < off_end
        → reads (quote v ++ b'&' ∷ rest) value_at (at_value (length before) (length (quote k)) s)
          ≡ reads rest (value_end + 1) (at_name (value_end + 1) (length (quote k)) (func s k v))
    unfolding scan
    run_value rest h =
        let raw = before ++ written (k, v) more in
        let w = at_value (length before) (length (quote k)) s in
        rw (
          skip_value raw off_end func (quote v) (b'&' ∷ rest) value_at w (quote-IsPlain v hv)
              (omega arith) (omega arith),
          at_separator raw off_end func w value_end (omega arith),
          handed value_end (value_end - value_at) (omega arith),
        )

    -- Reading the value that ends the text.
    run_last :
        v ≢ []
        → value_end ≡ off_end
        → reads (quote v) value_at (at_value (length before) (length (quote k)) s)
          ≡ ok (at_name off_end (length (quote k)) (func s k v))
    unfolding scan
    run_last full h =
        let raw = before ++ written (k, v) more in
        let w = at_value (length before) (length (quote k)) s in
        let (i, c, e) = ends (quote v) (quote-ne-nil v full) in
        let plain = subst (All IsPlain) e (quote-IsPlain v hv) in
        let last = value_at + length i in
        let size : length (quote v) ≡ length i + 1 = ap length e ∙ length-append i (c ∷ []) in
        let up_to : last + 1 ≡ off_end = omega arith in
        ap (λ t. reads t value_at w) e
        ∙ skip_value raw off_end func i (c ∷ []) value_at w (All-append_left i (c ∷ []) plain)
            (omega arith) (omega arith)
        ∙ rw (
          at_last raw off_end func c w last (All-append_right i (c ∷ []) plain).0 (omega arith)
              up_to,
          handed last (last - value_at + 1) (omega arith),
          up_to,
        )

  abbrev pub apply_param : S → Param → S
  apply_param s p = func s p.0 p.1

  run-text :
      (ps : List Param) (before post : Bytes) (off_end size : ℕ) (s : S)
      → IsWritable ps
      → off_end ≡ length before + length (text ps)
      → (run
            (before ++ (text ps ++ post))
            off_end
            func
            (text ps)
            (length before)
            (at_name (length before) size s)
          >>= λ v. ok v.sink)
        ≡ ok (foldl apply_param s ps)
  unfolding text scan
  run-text [] before post off_end size s h e = refl
  run-text ((k, v) ∷ []) before post off_end size s (hk, hv, ne, full) e =
      let measured = length-written (k, v) [] in
      rw (
        written-append (k, v) [] post,
        run_name (before ++ written (k, v) post) (quote k) (quote v ++ []) off_end (length before)
            size s (quote-IsPlain k hk),
        append-nil (quote v),
        run_last before k v post off_end s hk hv ne full (omega (arith, measured)),
      )
  run-text ((k, v) ∷ q ∷ ps) before post off_end size s (hk, hv, ne, h) e =
      let t = text (q ∷ ps) in
      let before' = before ++ written (k, v) (b'&' ∷ []) in
      let more = b'&' ∷ (t ++ post) in
      let measured = length-written (k, v) (b'&' ∷ t) in
      let reached : value_end before k v more off_end s hk hv ne + 1 ≡ length before' = omega (
        arith,
        length-append before (written (k, v) (b'&' ∷ [])),
        length-written (k, v) (b'&' ∷ []),
      ) in
      let regroup : before ++ written (k, v) more ≡ before' ++ (t ++ post) =
        ap (λ x. before ++ x) (sym (written-append (k, v) (b'&' ∷ []) (t ++ post)))
        ∙ sym (append_assoc before (written (k, v) (b'&' ∷ [])) (t ++ post)) in
      rw
        (
          written-append (k, v) (b'&' ∷ t) post,
          run_name (before ++ written (k, v) more) (quote k) (quote v ++ b'&' ∷ t) off_end
              (length before) size s (quote-IsPlain k hk),
          run_value before k v more off_end s hk hv ne t (omega (arith, measured)),
        )
        (rw (regroup, reached)
          (run-text (q ∷ ps) before' post off_end (length (quote k)) (func s k v) h
            (omega (arith, measured, reached))))

-- Wherever it stands in a buffer, the query string that `to_raw` writes for some parameters is read
-- back by `parse_urlencoded` with separator `&` and unquoting: the callback gets each name with its
-- value, in order. The texts are of bytes, no name is empty, and the last value is not.
pub parse_urlencoded-query_string :
    {S : Type 0} (func : S → Bytes → Bytes → S) (ps : List Param) (before post : Bytes) (s : S)
    → IsWritable ps
    → parse_urlencoded
        (before ++ (query_string ps ++ post))
        (length before)
        (length before + length (query_string ps))
        func
        b'&'
        true
        s
      ≡ ok (foldl (apply_param func) s ps)
unfolding parse_urlencoded
parse_urlencoded-query_string func ps before post s h =
    let size : length before + length (text ps) - length before ≡ length (text ps) = omega arith in
    rw (query_string-text ps, size, slice-append before (text ps) post (length before) _ refl refl)
      (run-text func ps before post (length before + length (text ps)) 0 s h refl)
