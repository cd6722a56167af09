-- ===== src/Http/Version/RoundTrip.antt =====
-- A version that `to_str` writes is read back by the constructor of `ver_t`.
use highload_cup.Common.{
  arith, ℕ, ◌<◌, ◌≤◌, ◌≡◌, refl, sym, List, [], ◌∷◌, ◌++◌, Bytes, codes, length, All, All-append,
  true, ok, ◌>>=◌,
}
use highload_cup.Util.Numbers.{uchar, format_uchar}
use highload_cup.Util.Numbers.Decimal.{IsDigit, value}
use highload_cup.Util.Numbers.Parse.{atoi_within_complete}
use highload_cup.Util.Numbers.RoundTrip.{itoa_decimal}
use highload_cup.Util.Text.{find_text}
use highload_cup.Http.Status.Words.{avoids}
use highload_cup.Http.Params.Written.{IsQueryByte}
use highload_cup.Http.Version.{Version, version_of, to_str}

-- The digits of the greatest byte.
abbrev max_uchar : Bytes
max_uchar = codes "255"

-- `format<unsigned char>` reads digits that spell a byte.
format_uchar_complete :
    (s : Bytes) (n : ℕ)
    → All IsDigit s
    → length s ≤ 3
    → value 0 s ≡ n
    → n < 256
    → format_uchar s ≡ ok n
unfolding format_uchar
format_uchar_complete s n ds short spells small =
    atoi_within_complete uchar max_uchar (omega arith) (omega arith) s n
      (ds, short, sym spells, omega arith)

-- What boost documents of a split: two fields without a point, with a point between them, are split
-- into the two.
abbrev pub SplitsTwo : (Bytes → Bytes → List Bytes) → Type 0
SplitsTwo split =
    (s t : Bytes)
    → All IsDigit s
    → All IsDigit t
    → split (s ++ (codes "." ++ t)) (codes ".") ≡ s ∷ t ∷ []

-- A version of two bytes that `to_str` writes is the one that the constructor reads, whatever was in
-- the memory, if the split takes two fields of digits apart at the point between them.
pub version_of-to_str :
    (split : Bytes → Bytes → List Bytes)
    → SplitsTwo split
    → (unset v : Version) → v.byte1 < 256
    → v.byte2 < 256
    → (to_str v >>= version_of split unset) ≡ ok v
unfolding to_str version_of find_text
version_of-to_str split splits unset v h k =
    let (s, prints, ds, short, spells) =
      itoa_decimal v.byte1 3 (omega arith) (omega arith) (omega arith) in
    let (t, prints', dt, short', spells') =
      itoa_decimal v.byte2 3 (omega arith) (omega arith) (omega arith) in
    rw
      (
        prints,
        prints',
        splits s t ds dt,
        format_uchar_complete s v.byte1 ds short spells h,
        format_uchar_complete t v.byte2 dt short' spells' k,
      )
      refl

-- A printed version is of bytes of a version: digits, a point and the letters in front.
digit-avoids : (s : Bytes) → All IsDigit s → avoids b' ' b'\n' s ≡ true
digit-avoids [] h = refl
digit-avoids (b ∷ s) (hb, h) = ground (arith, digit-avoids s h)

avoids-append :
    (s t : Bytes)
    → avoids b' ' b'\n' s ≡ true
    → avoids b' ' b'\n' t ≡ true
    → avoids b' ' b'\n' (s ++ t) ≡ true
avoids-append [] t h k = k
avoids-append (b ∷ s) t h k = ground (arith, avoids-append s t)

pub to_str-printed :
    (v : Version)
    → v.byte1 < 256
    → v.byte2 < 256
    → (ver : Bytes) × (to_str v ≡ ok ver) × (0 < length ver) × (avoids b' ' b'\n' ver ≡ true)
unfolding to_str
to_str-printed v h k =
    let (s, prints, ds, short, spells) =
      itoa_decimal v.byte1 3 (omega arith) (omega arith) (omega arith) in
    let (t, prints', dt, short', spells') =
      itoa_decimal v.byte2 3 (omega arith) (omega arith) (omega arith) in
    (
      codes "HTTP/" ++ (s ++ (codes "." ++ t)),
      rw (prints, prints') refl,
      omega arith,
      avoids-append (codes "HTTP/") (s ++ (codes "." ++ t)) refl (
          avoids-append s (codes "." ++ t) (digit-avoids s ds)
            (avoids-append (codes ".") t refl (digit-avoids t dt))),
    )

digits-IsQueryByte : (s : Bytes) → All IsDigit s → All IsQueryByte s
digits-IsQueryByte [] h = tt
digits-IsQueryByte (b ∷ s) (hb, h) =
    ((omega arith, omega arith, omega arith), digits-IsQueryByte s h)

-- A printed version stands in one line, with no space.
pub to_str-IsQueryByte :
    (v : Version)
    → v.byte1 < 256
    → v.byte2 < 256
    → (ver : Bytes) × (to_str v ≡ ok ver) × (0 < length ver) × All IsQueryByte ver
unfolding to_str
to_str-IsQueryByte v h k =
    let (s, prints, ds, short, spells) =
      itoa_decimal v.byte1 3 (omega arith) (omega arith) (omega arith) in
    let (t, prints', dt, short', spells') =
      itoa_decimal v.byte2 3 (omega arith) (omega arith) (omega arith) in
    (
      codes "HTTP/" ++ (s ++ (codes "." ++ t)),
      rw (prints, prints') refl,
      omega arith,
      All-append IsQueryByte (codes "HTTP/") (s ++ (codes "." ++ t)) (omega arith) (
          All-append IsQueryByte s (codes "." ++ t) (digits-IsQueryByte s ds)
            ((omega arith, omega arith, omega arith), digits-IsQueryByte t dt)),
    )
