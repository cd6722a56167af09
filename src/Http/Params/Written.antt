-- ===== src/Http/Params/Written.antt =====
-- The text that the loop of `to_raw` writes for some parameters.
use highload_cup.Common.{
  ℕ, ◌+◌, ◌<◌, ◌≡◌, ◌≢◌, refl, false, sym, ap, ◌∙◌, true, List, [], ◌∷◌, ◌++◌, arith, Bytes, length,
  length-append, All-append, All, append-nil, append_assoc,
}
use highload_cup.Http.Quote.{quote}
use highload_cup.Http.Quote.RoundTrip.{AllBytes, IsPlain, quote-IsPlain}
use highload_cup.Http.Params.{query_loop, query_string}

-- The name of a parameter, and its value.
abbrev pub Param : Type 0
Param = Bytes × Bytes

-- The text of one parameter, with what follows it.
abbrev pub written : Param → Bytes → Bytes
written (k, v) rest = quote k ++ (b'=' ∷ (quote v ++ rest))

-- The parameters as one text.
unfoldable pub text : List Param → Bytes
text [] = []
text (p ∷ []) = written p []
text (p ∷ q ∷ ps) = written p (b'&' ∷ text (q ∷ ps))

-- Names and values are bytes, no name is empty, and the last value is not.
abbrev pub IsWritable : List Param → Type 0
IsWritable [] = Unit
IsWritable (p ∷ []) = AllBytes p.0 × AllBytes p.1 × (p.0 ≢ []) × (p.1 ≢ [])
IsWritable (p ∷ q ∷ ps) = AllBytes p.0 × AllBytes p.1 × (p.0 ≢ []) × IsWritable (q ∷ ps)

pub length-written :
    (p : Param) (r : Bytes)
    → length (written p r) ≡ length (quote p.0) + 1 + length (quote p.1) + length r
length-written (k, v) r =
    omega (arith, length-append (quote k) (b'=' ∷ (quote v ++ r)), length-append (quote v) r)

pub written-append : (p : Param) (a b : Bytes) → written p a ++ b ≡ written p (a ++ b)
written-append p a b = rw (append_assoc, append_assoc)

-- What follows a parameter in the text.
tail : List Param → Bytes
unfolding text
tail [] = []
tail (p ∷ ps) = b'&' ∷ text (p ∷ ps)

text-cons : (p : Param) (ps : List Param) → text (p ∷ ps) ≡ written p (tail ps)
unfolding text tail
text-cons p [] = refl
text-cons p (q ∷ ps) = refl

query_loop-tail : (ps : List Param) (res : Bytes) → query_loop true ps res ≡ res ++ tail ps
unfolding query_loop
query_loop-tail [] res = unfold tail in sym (append-nil res)
query_loop-tail ((k, v) ∷ ps) res = query_loop-tail ps _ ∙ spelled
  where
    spelled :
        ((res ++ b'&' ∷ []) ++ (quote k ++ b'=' ∷ quote v)) ++ tail ps ≡ res ++ tail ((k, v) ∷ ps)
    spelled = unfold tail in simp (text-cons, append_assoc)

pub query_string-text : (ps : List Param) → query_string ps ≡ text ps
unfolding query_string query_loop text
query_string-text [] = refl
query_string-text ((k, v) ∷ ps) =
    query_loop-tail ps (quote k ++ b'=' ∷ quote v) ∙ simp (text-cons, append_assoc)

-- The loop from the first parameter on, behind what has been written.
pub query_string_from :
    (p : Param) (ps : List Param) (res : Bytes)
    → query_loop false (p ∷ ps) res ≡ res ++ query_string (p ∷ ps)
unfolding query_loop query_string
query_string_from (k, v) ps res =
    query_loop-tail ps (res ++ (quote k ++ b'=' ∷ quote v))
    ∙ append_assoc res (quote k ++ b'=' ∷ quote v) (tail ps)
    ∙ ap (λ t. res ++ t) (sym (query_loop-tail ps (quote k ++ b'=' ∷ quote v)))

-- A byte that a request line can hold behind the path.
abbrev pub IsQueryByte : ℕ → Type 0
IsQueryByte c = (c ≢ b' ') × (c ≢ b'\n') × (c ≢ b'\r')

plain-IsQueryByte : (s : Bytes) → All IsPlain s → All IsQueryByte s
plain-IsQueryByte [] h = tt
plain-IsQueryByte (c ∷ s) ((a, b, d, e, f), h) = ((a, e, f), plain-IsQueryByte s h)

written-IsQueryByte :
    (p : Param) (r : Bytes)
    → AllBytes p.0
    → AllBytes p.1
    → All IsQueryByte r
    → All IsQueryByte (written p r)
written-IsQueryByte (k, v) r hk hv h =
    All-append IsQueryByte (quote k) (b'=' ∷ (quote v ++ r))
      (plain-IsQueryByte (quote k) (quote-IsPlain k hk))
      (
        (omega arith, omega arith, omega arith),
        All-append IsQueryByte (quote v) r (plain-IsQueryByte (quote v) (quote-IsPlain v hv)) h,
      )

text-IsQueryByte : (ps : List Param) → IsWritable ps → All IsQueryByte (text ps)
unfolding text
text-IsQueryByte [] h = tt
text-IsQueryByte (p ∷ []) (hk, hv, _, _) = written-IsQueryByte p [] hk hv tt
text-IsQueryByte (p ∷ q ∷ ps) (hk, hv, _, h) =
    written-IsQueryByte p (b'&' ∷ text (q ∷ ps)) hk hv
      ((omega arith, omega arith, omega arith), text-IsQueryByte (q ∷ ps) h)

pub query_string-IsQueryByte : (ps : List Param) → IsWritable ps → All IsQueryByte (query_string ps)
query_string-IsQueryByte ps h = rw query_string-text (text-IsQueryByte ps h)

pub length-query_string_pos : (p : Param) (ps : List Param) → 0 < length (query_string (p ∷ ps))
length-query_string_pos p ps =
    rw (query_string-text (p ∷ ps), text-cons p ps) (omega (arith, length-written p (tail ps)))
