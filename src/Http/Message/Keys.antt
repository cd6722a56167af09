-- ===== src/Http/Message/Keys.antt =====
-- What is found in a table of headers behind the insertions.
use highload_cup.Common.{
  ◌≡◌, refl, ◌∙◌, false, [], ◌∷◌, ◌++◌, none, some, Bool-cases, inl, inr, Option-cases, Bytes,
  bytes_eq, bytes_eq_refl, map, All,
}
use highload_cup.Http.Message.{Table, find_key, insert_key}
use highload_cup.Http.Message.Parse.{tolower}
use highload_cup.Http.Message.Parse.Table.{add_all}

find_key-append :
    (k : Bytes) (t u : Table Bytes) → find_key k t ≡ none → find_key k (t ++ u) ≡ find_key k u
find_key-append k [] u h = refl
find_key-append k ((key, v) ∷ t) u h = elim (Bool-cases (bytes_eq key k)) [
  | inl e ↦ absurd cc
  | inr e ↦ rw e (find_key-append k t u ((rw e at h)))
]

insert_key-missing :
    (key v : Bytes) (t : Table Bytes)
    → find_key key t ≡ none
    → insert_key key v t ≡ t ++ (key, v) ∷ []
insert_key-missing key v t h = rw (insert_key, h) refl

insert_key-present :
    (key v w : Bytes) (t : Table Bytes) → find_key key t ≡ some w → insert_key key v t ≡ t
insert_key-present key v w t h = rw (insert_key, h) refl

find_key-insert_other :
    (k key v : Bytes) (t : Table Bytes)
    → find_key k t ≡ none
    → bytes_eq key k ≡ false
    → find_key k (insert_key key v t) ≡ none
find_key-insert_other k key v t h e = elim (Option-cases (find_key key t)) [
  | inl f ↦ rw (insert_key-missing key v t f) (find_key-append k t ((key, v) ∷ []) h ∙ rw e refl)
  | inr (w, f) ↦ rw (insert_key-present key v w t f) h
]

find_key-insert_key :
    (k v : Bytes) (t : Table Bytes) → find_key k t ≡ none → find_key k (insert_key k v t) ≡ some v
find_key-insert_key k v t h =
    rw (insert_key-missing k v t h)
      (find_key-append k t ((k, v) ∷ []) h ∙ rw (bytes_eq_refl k) refl)

-- A name that none of the earlier lines has is stored with the value of the last line.
pub find_key-add_all :
    (k key v : Bytes) (hs t : Table Bytes)
    → map tolower key ≡ k
    → find_key k t ≡ none
    → All (λ (h : Bytes × Bytes). bytes_eq (map tolower h.0) k ≡ false) hs
    → find_key k (add_all (hs ++ (key, v) ∷ []) t) ≡ some v
find_key-add_all k key v [] t e h others = rw e (find_key-insert_key k v t h)
find_key-add_all k key v ((key', v') ∷ hs) t e h (other, others) =
    find_key-add_all k key v hs (insert_key (map tolower key') v' t) e
      (find_key-insert_other k (map tolower key') v' t h other) others
