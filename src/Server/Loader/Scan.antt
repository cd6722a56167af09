-- ===== src/Server/Loader/Scan.antt =====
-- The objects that the scanner of `load` finds.
use highload_cup.Common.{
  ◌&&◌, ◌==◌, ℕ, ◌≡◌, ◌≢◌, refl, ap, ◌∙◌, Bool, true, false, List, [], ◌∷◌, ◌++◌, Bytes, All, map,
  append_assoc, append-nil, ==_false,
}
use highload_cup.Server.Loader.{Scanner, scan_step, scan, objects}

-- A byte of an object, or between objects.
abbrev pub IsPlain : ℕ → Type 0
IsPlain b = (b ≢ b'{') × (b ≢ b'}')

abbrev pub IsTail : ℕ → Type 0
IsTail b = b ≢ b'{'

-- Objects with what stands before each of them, and behind the last.
abbrev pub listing : List (Bytes × Bytes) → Bytes → Bytes
listing [] tail = tail
listing ((gap, inner) ∷ rest) tail = gap ++ (b'{' ∷ (inner ++ (b'}' ∷ listing rest tail)))

abbrev pub object : Bytes × Bytes → Bytes
object (gap, inner) = b'{' ∷ (inner ++ b'}' ∷ [])

abbrev pub ArePlain : List (Bytes × Bytes) → Type 0
ArePlain = All (λ p. All IsPlain p.0 × All IsPlain p.1)

-- Bytes that are only put into the buffer.
plain_read :
    (s : Scanner) (w rest : Bytes)
    → All IsPlain w
    → scan s (w ++ rest) ≡ scan (record s { buffer = s.buffer ++ w }) rest
unfolding scan scan_step
plain_read s [] rest h = rw append-nil refl
plain_read s (b ∷ w) rest ((open_brace, close_brace), h) =
    rw (==_false b b'{' open_brace, scan, ==_false b b'}' close_brace)
      (plain_read (record s { buffer = s.buffer ++ b ∷ [] }) w rest h
        ∙ ap (λ x. scan (record s { buffer = x }) rest) (append_assoc s.buffer (b ∷ []) w))

&&_false : (x : Bool) → (x && false) ≡ false
&&_false true = refl
&&_false false = refl

-- The scanner between objects, and in one.
abbrev between : Bytes → Scanner
between buffer = record { first = false; brace_open = false; buffer = buffer }

abbrev inside : Bytes → Scanner
inside buffer = record { first = false; brace_open = true; buffer = buffer }

tail_read : (buffer w : Bytes) → All IsTail w → scan (between buffer) w ≡ []
unfolding scan scan_step
tail_read buffer [] h = refl
tail_read buffer (b ∷ w) (hb, h) =
    rw (==_false b b'{' hb, scan, &&_false (b == b'}')) (tail_read (buffer ++ b ∷ []) w h)

object_found :
    (gap inner rest buffer : Bytes)
    → All IsPlain gap
    → All IsPlain inner
    → scan (between buffer) (gap ++ (b'{' ∷ (inner ++ (b'}' ∷ rest))))
      ≡ object (gap, inner) ∷ scan (between (object (gap, inner))) rest
unfolding scan scan_step
object_found gap inner rest buffer hg hi =
    plain_read (between buffer) gap (b'{' ∷ (inner ++ (b'}' ∷ rest))) hg
    ∙ plain_read (inside (b'{' ∷ [])) inner (b'}' ∷ rest) hi

listing_found :
    (ps : List (Bytes × Bytes)) (tail buffer : Bytes)
    → ArePlain ps
    → All IsTail tail
    → scan (between buffer) (listing ps tail) ≡ map object ps
listing_found [] tail buffer hp ht = tail_read buffer tail ht
listing_found ((gap, inner) ∷ ps) tail buffer ((hg, hi), hp) ht =
    object_found gap inner (listing ps tail) buffer hg hi
    ∙ ap (λ r. object (gap, inner) ∷ r) (listing_found ps tail (object (gap, inner)) hp ht)

-- Of a file that starts with a brace, and then holds objects with no brace in them, with bytes other
-- than braces before each of them and with no opening brace behind the last, the scanner inserts
-- exactly these objects, in order.
pub objects-listing :
    (ps : List (Bytes × Bytes)) (tail : Bytes)
    → ArePlain ps
    → All IsTail tail
    → objects (b'{' ∷ listing ps tail) ≡ map object ps
unfolding objects scan scan_step
objects-listing ps tail hp ht = listing_found ps tail [] hp ht
