-- ===== src/Http/Status/Words.antt =====
-- The text of a status as its number, a space and a reason.
use highload_cup.Common.{
  ℕ, ◌≡◌, ◌≢◌, refl, Bool, true, not, ◌&&◌, [], ◌∷◌, ◌++◌, ◌==◌, Bytes, codes, length, ok,
}
use highload_cup.Util.Numbers.{format_size}
use highload_cup.Http.Status.{
  Status, s200, s204, s302, s400, s403, s404, s405, s500, s501, unknown, status_to_str,
  status_from_int,
}

-- No byte of the text is one of two.
abbrev pub avoids : ℕ → ℕ → Bytes → Bool
avoids c d [] = true
avoids c d (b ∷ s) = not (b == c) && (not (b == d) && avoids c d s)

pub record Words (status : Status) : Type 0 where
  pub number : ℕ
  pub word : Bytes
  pub reason : Bytes
  pub text : status_to_str status ≡ word ++ (codes " " ++ reason)
  pub reads : format_size word ≡ ok number
  pub names : status_from_int number ≡ status
  pub three : length word ≡ 3
  pub word_plain : avoids b' ' b'\n' word ≡ true
  pub reason_plain : avoids b'\n' b'\r' reason ≡ true

abbrev words_of :
    (status : Status) (number : ℕ) (word reason : Bytes)
    → status_to_str status ≡ word ++ (codes " " ++ reason)
    → format_size word ≡ ok number
    → status_from_int number ≡ status
    → length word ≡ 3
    → avoids b' ' b'\n' word ≡ true
    → avoids b'\n' b'\r' reason ≡ true
    → Words status
words_of status number word reason text reads names three word_plain reason_plain = record {
  number = number;
  word = word;
  reason = reason;
  text = text;
  reads = reads;
  names = names;
  three = three;
  word_plain = word_plain;
  reason_plain = reason_plain;
}

pub status_words : (status : Status) → status ≢ unknown → Words status
unfolding status_to_str format_size status_from_int
status_words s200 h = words_of s200 200 (codes "200") (codes "OK") refl refl refl refl refl refl
status_words s204 h =
    words_of s204 204 (codes "204") (codes "No Content") refl refl refl refl refl refl
status_words s302 h = words_of s302 302 (codes "302") (codes "Found") refl refl refl refl refl refl
status_words s400 h =
    words_of s400 400 (codes "400") (codes "Bad Request") refl refl refl refl refl refl
status_words s403 h =
    words_of s403 403 (codes "403") (codes "Forbidden") refl refl refl refl refl refl
status_words s404 h =
    words_of s404 404 (codes "404") (codes "Not Found") refl refl refl refl refl refl
status_words s405 h =
    words_of s405 405 (codes "405") (codes "Method Not Allowed") refl refl refl refl refl refl
status_words s500 h =
    words_of s500 500 (codes "500") (codes "Internal Server Error") refl refl refl refl refl refl
status_words s501 h =
    words_of s501 501 (codes "501") (codes "Not Implemented") refl refl refl refl refl refl
status_words unknown h = absurd (h refl)

-- No text of a status has a line end.
pub status_plain : (status : Status) → avoids b'\n' b'\r' (status_to_str status) ≡ true
unfolding status_to_str
status_plain s200 = refl
status_plain _ = refl
