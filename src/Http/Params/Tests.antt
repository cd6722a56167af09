-- ===== src/Http/Params/Tests.antt =====
-- Runs of `parse_urlencoded`.
use highload_cup.Common.{◌≡◌, refl, true, List, [], ◌∷◌, ◌++◌, Bytes, codes, ok, throw, empty_name}
use highload_cup.Http.Params.{parse_urlencoded}
use highload_cup.Http.Quote.{unquote}

abbrev collect : List (Bytes × Bytes) → Bytes → Bytes → List (Bytes × Bytes)
collect sink name value = sink ++ (name, value) ∷ []

two_fields :
    parse_urlencoded (codes "/a?x=1%2B+2&yy=z H") 3 16 collect b'&' true []
    ≡ ok ((codes "x", codes "1+ 2") ∷ (codes "yy", codes "z") ∷ [])
unfolding parse_urlencoded unquote
two_fields = refl

-- A value that ends the text and is empty is not handed over.
empty_value : parse_urlencoded (codes "x=") 0 2 collect b'&' true [] ≡ ok []
unfolding parse_urlencoded unquote
empty_value = refl

empty_name_test : parse_urlencoded (codes "=1") 0 2 collect b'&' true [] ≡ throw empty_name
unfolding parse_urlencoded unquote
empty_name_test = refl
