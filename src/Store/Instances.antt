-- ===== src/Store/Instances.antt =====
-- A hash map and libraries to run the base on: a list of keys and values that refuses key 0, and a
-- reader of texts that knows one visit.
use highload_cup.Common.{
  arith, ℕ, ◌+◌, ◌/◌, ◌≡◌, ◌≢◌, refl, sym, ap, ◌∙◌, Bool, true, false, List, [], ◌∷◌, Option, none,
  some, ◌==◌, if◌then◌else◌, Bool-cases, Option-cases, inl, inr, ==_iff, ==_false, Bytes, codes,
  bytes_eq,
}
use highload_cup.Common.Int.{pos}
use highload_cup.Common.Text.{to_string}
use highload_cup.Store.HashMap.{HashMap, is_none, or_else}
use highload_cup.Store.Libs.{Libs, Tm}

abbrev pub at_key : {V : Type 0} → ℕ → List (ℕ × V) → Option V
at_key k [] = none
at_key k ((j, v) ∷ m) = if j == k then some v else at_key k m

abbrev pub without : {V : Type 0} → ℕ → List (ℕ × V) → List (ℕ × V)
without k [] = []
without k ((j, v) ∷ m) = if j == k then without k m else (j, v) ∷ without k m

pub at_key-without :
    {V : Type 0} (k j : ℕ) (m : List (ℕ × V))
    → at_key j (without k m) ≡ (if k == j then none else at_key j m)
at_key-without k j [] = ground arith
at_key-without k j ((i, v) ∷ m) = ground (arith, at_key-without k j m)

abbrev pub size_of : {V : Type 0} → List (ℕ × V) → ℕ
size_of [] = 0
size_of (e ∷ m) = size_of m + 1

abbrev pub guarded : {A : Type 0} → ℕ → A → Option A
guarded k a = if k == 0 then none else some a

pub guarded-eq-some : {A : Type 0} (k : ℕ) (a b : A) → guarded k a ≡ some b → a ≡ b
guarded-eq-some k a b h = ground arith

pub guarded_total : {A : Type 0} (k : ℕ) (a : A) → k ≢ 0 → guarded k a ≢ none
guarded_total k a h e =
    let t : (k == 0) ≡ false = ==_false k 0 h in let e' : some a ≡ none = rw t at e in cc

abbrev pub insert_new : {V : Type 0} → ℕ → V → List (ℕ × V) → List (ℕ × V) × Bool
insert_new k v m = elim (at_key k m) [ none ↦ ((k, v) ∷ m, true) | some w ↦ (m, false) ]

pub insert_new-find :
    {V : Type 0} (k : ℕ) (v : V) (m m' : List (ℕ × V)) (fresh : Bool)
    → insert_new k v m ≡ (m', fresh)
    → (fresh ≡ is_none (at_key k m))
      × ((j : ℕ) → at_key j m' ≡ (if k == j then or_else (at_key k m) v else at_key j m))
insert_new-find k v m m' fresh h = elim (Option-cases (at_key k m)) [
  | inl e ↦
      let h' : ◌≡◌ {A = List (ℕ × _) × Bool} ((k, v) ∷ m, true) (m', fresh) =
        rw (insert_new, e) at h in
      (
        rw e (sym (ap (λ (x : List (ℕ × _) × Bool). x.1) h')),
        λ j. rw (e, ← (ap (λ (x : List (ℕ × _) × Bool). x.0) h')) refl,
      )
  | inr (w, e) ↦
      let h' : ◌≡◌ {A = List (ℕ × _) × Bool} (m, false) (m', fresh) = rw (insert_new, e) at h in
      (
        rw e (sym (ap (λ (x : List (ℕ × _) × Bool). x.1) h')),
        λ j. rw (e, ← (ap (λ (x : List (ℕ × _) × Bool). x.0) h')) (kept j w e),
      )
]
  where
    kept :
        (j : ℕ) (w : _) → at_key k m ≡ some w → at_key j m ≡ (if k == j then some w else at_key j m)
    kept j w e = elim (Bool-cases (k == j)) [
      | inl p ↦ rw p (ap (λ x. at_key x m) (sym ((==_iff k j).0 p)) ∙ e)
      | inr p ↦ rw p refl
    ]

abbrev pub put : {V : Type 0} → ℕ → V → List (ℕ × V) → List (ℕ × V)
put k v m = (k, v) ∷ without k m

pub at_key-put :
    {V : Type 0} (k j : ℕ) (v : V) (m : List (ℕ × V))
    → at_key j (put k v m) ≡ (if k == j then some v else at_key j m)
at_key-put k j v m = ground (arith, at_key-without k j m)

abbrev pub list_map : HashMap
list_map = record {
  Map = λ V. List (ℕ × V);
  empty = [];
  find = λ k m. at_key k m;
  size = λ m. size_of m;
  insert = λ k v m. guarded k (insert_new k v m);
  assign = λ k v m. guarded k (put k v m);
  store = λ k v m. put k v m;
  erase = λ k m. guarded k (without k m);
  find-empty = λ V j. refl;
  find-insert = λ V k v m m' fresh h. insert_new-find k v m m' fresh (guarded-eq-some k _ _ h);
  insert_total = λ V k v m h. guarded_total k _ h;
  find-assign =
      λ V k v m m' h j. ap (λ x. at_key j x) (sym (guarded-eq-some k _ _ h)) ∙ at_key-put k j v m;
  assign_total = λ V k v m h. guarded_total k _ h;
  find-store = λ V k v w m h j. at_key-put k j v m;
  find-erase =
      λ V k m m' h j. ap (λ x. at_key j x) (sym (guarded-eq-some k _ _ h)) ∙ at_key-without k j m;
}

-- A value is a text or a number.
pub data Member : Type 0 where
  text : Bytes → Member
  number : ℕ → Member

-- The documents that the reader knows: a visit, a user and a location, and an update of each.
abbrev pub known : Bytes → Option (List (Bytes × Member))
known json =
    if bytes_eq json (codes "visit")
    then some (
        (codes "id", number 5)
        ∷ (codes "location", number 2)
        ∷ (codes "user", number 3)
        ∷ (codes "visited_at", number 40)
        ∷ (codes "mark", number 4)
        ∷ [])
    else if bytes_eq json (codes "moved")
    then some ((codes "user", number 7) ∷ [])
    else if bytes_eq json (codes "user")
    then some (
        (codes "id", number 7)
        ∷ (codes "email", text (codes "a@b"))
        ∷ (codes "first_name", text (codes "Ann"))
        ∷ (codes "last_name", text (codes "Bay"))
        ∷ (codes "gender", text (codes "f"))
        ∷ (codes "birth_date", number 1)
        ∷ [])
    else if bytes_eq json (codes "married")
    then some ((codes "last_name", text (codes "Cole")) ∷ [])
    else if bytes_eq json (codes "location")
    then some (
        (codes "id", number 2)
        ∷ (codes "place", text (codes "Park"))
        ∷ (codes "country", text (codes "RU"))
        ∷ (codes "city", text (codes "M"))
        ∷ (codes "distance", number 1)
        ∷ [])
    else if bytes_eq json (codes "renamed")
    then some ((codes "place", text (codes "Pier")) ∷ [])
    else none

abbrev pub is_text : Member → Bool
is_text (text s) = true
is_text (number n) = false

abbrev pub is_number : Member → Bool
is_number (text s) = false
is_number (number n) = true

abbrev pub text_of : Member → Bytes
text_of (text s) = s
text_of (number n) = []

abbrev pub number_of : Member → ℕ
number_of (text s) = 0
number_of (number n) = n

abbrev pub member_of : Bytes → List (Bytes × Member) → Option Member
member_of name [] = none
member_of name ((k, v) ∷ m) = if bytes_eq k name then some v else member_of name m

abbrev pub known_libs : Libs
known_libs = record {
  Document = List (Bytes × Member);
  Value = Member;
  parse = λ json. known json;
  has_member =
      λ document name. some (elim (member_of name document) [ none ↦ false | some v ↦ true ]);
  member = λ document name. elim (member_of name document) [ none ↦ number 0 | some v ↦ v ];
  is_string = λ v. is_text v;
  is_null = λ v. false;
  is_uint = λ v. is_number v;
  is_int = λ v. is_number v;
  get_string = λ v. text_of v;
  get_uint = λ v. number_of v;
  get_int = λ v. pos (number_of v);
  mktime = λ tm. tm.tm_year;
  Double = ℕ;
  zero_mark = 0;
  add_mark = λ sum mark. sum + mark;
  add = λ a b. a + b;
  divide = λ a n. a / n;
  epsilon = 0;
  print_5f = λ a. to_string a;
}

abbrev pub new_year : Tm
new_year = record {
  tm_year = pos 117;
  tm_mon = 0;
  tm_mday = 1;
  tm_hour = 0;
  tm_min = 0;
  tm_sec = 0;
}
