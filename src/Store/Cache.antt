-- ===== src/Store/Cache.antt =====
-- The texts that users and locations keep of themselves (`m_serialization`, base.cpp).
mod Calls
pub mod Objects
pub mod Runs
use highload_cup.Common.{
  arith, ℕ, ◌≡◌, ◌⊎◌, refl, sym, ap, subst, ◌∙◌, Bool, true, false, not, ◌||◌, List, [], ◌∷◌, ◌==◌,
  if◌then◌else◌, Bool-cases, inl, inr, Bytes,
}
use highload_cup.Store.Libs.{Libs, Run, done}
use highload_cup.Store.User
use highload_cup.Store.User.{User, is_empty}
use highload_cup.Store.Location
use highload_cup.Store.Location.{Location}
use highload_cup.Store.State.{Heap, write, alloc}

-- The text is empty, or the one of the fields.
abbrev pub IsFreshUser : User → Type 0
IsFreshUser u = (u.serialization ≡ []) ⊎ (u.serialization ≡ User.render u)

abbrev pub IsFreshLocation : Location → Type 0
IsFreshLocation l = (l.serialization ≡ []) ⊎ (l.serialization ≡ Location.render l)

-- What `serializate` is to return of an object, and to leave of it.
abbrev pub AnswersUser : User → User × Bytes → Type 0
AnswersUser u (left, text) = (text ≡ User.render u) × IsFreshUser left

abbrev pub AnswersLocation : Location → Location × Bytes → Type 0
AnswersLocation l (left, text) = (text ≡ Location.render l) × IsFreshLocation left

abbrev pub AllCells {ℓ} : {A : Type 0} → (A → Type ℓ) → Heap A → Type ℓ
AllCells P h = (a : ℕ) → P (h.cell a)

module _ {A : Type 0} (P : A → Type 0) (h : Heap A) (x : A) (ok : AllCells P h) (px : P x) where
  if-holds : (c : Bool) (y : A) → P y → P (if c then x else y)
  if-holds true y py = px
  if-holds false y py = py

  pub write-AllCells : (a : ℕ) → AllCells P (write h a x)
  write-AllCells a b = if-holds (a == b) (h.cell b) (ok b)

  pub alloc-AllCells : AllCells P (alloc h x)
  alloc-AllCells b = if-holds (h.next == b) (h.cell b) (ok b)

-- A text that is not made again is the one of the fields.
kept :
    (text new : Bytes) (force : Bool)
    → (text ≡ []) ⊎ (text ≡ new)
    → (force || is_empty text) ≡ false
    → text ≡ new
kept text new force (inl e) off = absurd (ground (arith, e))
kept text new force (inr e) off = e

-- What `serializate` returns, and what it leaves, for an object whose text is empty or right.
user-rendered :
    (u : User) (s : Bytes) → User.render (record u { serialization = s }) ≡ User.render u
unfolding User.render
user-rendered u s = refl

user-if :
    (c : Bool) (u : User)
    → IsFreshUser u
    → (c ≡ false → u.serialization ≡ User.render u)
    → AnswersUser u (
        if c
        then (record u { serialization = User.render u }, User.render u)
        else (u, u.serialization))
user-if true u h same = (refl, inr (sym (user-rendered u (User.render u))))
user-if false u h same = (same refl, h)

pub user-serializate :
    (u : User) (force : Bool) → IsFreshUser u → AnswersUser u (User.serializate u force)
unfolding User.serializate
user-serializate u force h =
    user-if (force || is_empty u.serialization) u h
      (λ off. kept u.serialization (User.render u) force h off)

location-rendered :
    (l : Location) (s : Bytes)
    → Location.render (record l { serialization = s }) ≡ Location.render l
unfolding Location.render
location-rendered l s = refl

location-if :
    (c : Bool) (l : Location)
    → IsFreshLocation l
    → (c ≡ false → l.serialization ≡ Location.render l)
    → AnswersLocation l (
        if c
        then (record l { serialization = Location.render l }, Location.render l)
        else (l, l.serialization))
location-if true l h same = (refl, inr (sym (location-rendered l (Location.render l))))
location-if false l h same = (same refl, h)

pub location-serializate :
    (l : Location) (force : Bool)
    → IsFreshLocation l
    → AnswersLocation l (Location.serializate l force)
unfolding Location.serializate
location-serializate l force h =
    location-if (force || is_empty l.serialization) l h
      (λ off. kept l.serialization (Location.render l) force h off)

pub user-deserializate :
    (libs : Libs) (json : Bytes) (u : User)
    → User.deserializate libs json ≡ done u
    → u.serialization ≡ []
unfolding User.deserializate
user-deserializate libs json u h = ground arith

pub location-deserializate :
    (libs : Libs) (json : Bytes) (l : Location)
    → Location.deserializate libs json ≡ done l
    → l.serialization ≡ []
unfolding Location.deserializate
location-deserializate libs json l h = ground arith
