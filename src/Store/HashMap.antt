-- ===== src/Store/HashMap.antt =====
-- `google::dense_hash_map` with a 32-bit key, as documented: key 0 is the empty key of every table
-- of base.cpp, and may not be stored; a table without a deleted key may not erase. A call that
-- breaks such a rule fails an assertion of the table: `none`.
use highload_cup.Common.{ℕ, ◌≡◌, ◌≢◌, Bool, true, false, Option, none, some, ◌==◌, if◌then◌else◌}

abbrev pub is_none : {V : Type 0} → Option V → Bool
is_none none = true
is_none (some v) = false

abbrev pub or_else : {V : Type 0} → Option V → V → Option V
or_else none v = some v
or_else (some w) v = some w

pub record HashMap : Type 1 where
  pub Map : Type 0 → Type 0
  pub empty : {V : Type 0} → Map V
  pub find : {V : Type 0} → ℕ → Map V → Option V
  pub size : {V : Type 0} → Map V → ℕ
  -- `insert`, with the flag that tells whether the key was new.
  pub insert : {V : Type 0} → ℕ → V → Map V → Option (Map V × Bool)
  -- `m[k] = v`.
  pub assign : {V : Type 0} → ℕ → V → Map V → Option (Map V)
  -- A write through the iterator of a key that is there.
  pub store : {V : Type 0} → ℕ → V → Map V → Map V
  pub erase : {V : Type 0} → ℕ → Map V → Option (Map V)
  pub find-empty : (V : Type 0) (j : ℕ) → find {V = V} j empty ≡ none
  pub find-insert :
      (V : Type 0) (k : ℕ) (v : V) (m m' : Map V) (fresh : Bool)
      → insert k v m ≡ some (m', fresh)
      → (fresh ≡ is_none (find k m))
        × ((j : ℕ) → find j m' ≡ (if k == j then or_else (find k m) v else find j m))
  pub insert_total : (V : Type 0) (k : ℕ) (v : V) (m : Map V) → k ≢ 0 → insert k v m ≢ none
  pub find-assign :
      (V : Type 0) (k : ℕ) (v : V) (m m' : Map V)
      → assign k v m ≡ some m'
      → (j : ℕ) → find j m' ≡ (if k == j then some v else find j m)
  pub assign_total : (V : Type 0) (k : ℕ) (v : V) (m : Map V) → k ≢ 0 → assign k v m ≢ none
  pub find-store :
      (V : Type 0) (k : ℕ) (v w : V) (m : Map V)
      → find k m ≡ some w
      → (j : ℕ) → find j (store k v m) ≡ (if k == j then some v else find j m)
  pub find-erase :
      (V : Type 0) (k : ℕ) (m m' : Map V)
      → erase k m ≡ some m'
      → (j : ℕ) → find j m' ≡ (if k == j then none else find j m)
