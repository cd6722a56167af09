-- ===== src/Store/Worker/Sets.antt =====
-- The sets of an index behind the operations of the worker.
use highload_cup.Common.{
  ℕ, ◌≡◌, refl, sym, ap, ◌∙◌, true, false, ◌&&◌, List, [], ◌∷◌, Option, none, some, arith, ◌==◌,
  if◌then◌else◌, Bool-cases, Option-cases, inl, inr, subst, ==_iff,
}
use highload_cup.Store.HashMap.{HashMap}
use highload_cup.Store.Libs.{Run, done, refused, aborted, hung, ◌>>=◌}
use highload_cup.Store.Fields.{or_abort}
use highload_cup.Store.State.{contains, set_insert, set_erase, or_empty, set_at}
use highload_cup.Store.Worker.{add_index, shrink_index, drop_index, move_index}

contains-set_insert :
    (v w : ℕ) (s : List ℕ) → contains w (set_insert v s) ≡ (if v == w then true else contains w s)
contains-set_insert v w s = elim (Bool-cases (contains v s)) [
  | inl e ↦ rw e (ground arith)
  | inr e ↦ rw e
]

pub contains-set_erase :
    (v w : ℕ) (s : List ℕ) → contains w (set_erase v s) ≡ (if v == w then false else contains w s)
contains-set_erase v w [] = ground arith
contains-set_erase v w (x ∷ s) = ground (arith, contains-set_erase v w s)

pub done_inj : {A : Type 0} {a b : A} → done a ≡ done b → a ≡ b
done_inj h = cc

pub or_abort-eq-done : {A : Type 0} (o : Option A) {a : A} → or_abort o ≡ done a → o ≡ some a
or_abort-eq-done none e = cc
or_abort-eq-done (some b) e = cc

pub bind-eq-done :
    {A B : Type 0} (m : Run A) (f : A → Run B) {b : B}
    → (m >>= f) ≡ done b
    → (a : A) × (m ≡ done a) × (f a ≡ done b)
bind-eq-done (done a) f h = (a, refl, h)
bind-eq-done refused f h = cc
bind-eq-done aborted f h = cc
bind-eq-done hung f h = cc

module _ (d : HashMap) where
  -- The visit is under the key, and nothing else changes.
  pub contains-add_index :
      (k v : ℕ) (m m' : d.Map (List ℕ))
      → add_index d k v m ≡ done m'
      → (j w : ℕ)
      → contains w (set_at d j m')
        ≡ (if (k == j) && (v == w) then true else contains w (set_at d j m))
  unfolding add_index
  contains-add_index k v m m' e j w =
      let found =
        d.find-assign (List ℕ) k (set_insert v (set_at d k m)) m m' (or_abort-eq-done _ e) j in
      elim (Bool-cases (k == j)) [
        | inl p ↦
            rw (found, p)
              (contains-set_insert v w (set_at d k m)
                ∙ ap (λ x. if v == w then true else contains w (set_at d x m)) ((==_iff k j).0 p))
        | inr p ↦ rw (found, p)
      ]

  -- A key whose set has lost the visit.
  contains_erased :
      (k v : ℕ) (s : List ℕ) (o : Option (List ℕ)) (m m' : d.Map (List ℕ))
      → d.find k m ≡ some s
      → or_empty o ≡ set_erase v s
      → ((j : ℕ) → d.find j m' ≡ (if k == j then o else d.find j m))
      → (j w : ℕ)
      → contains w (set_at d j m')
        ≡ (if (k == j) && (v == w) then false else contains w (set_at d j m))
  contains_erased k v s o m m' e f found j w = elim (Bool-cases (k == j)) [
    | inl p ↦
        rw (found j, p, f)
          (contains-set_erase v w s
            ∙ ap (λ x. if v == w then false else contains w x)
                (sym (ap or_empty e) ∙ ap (λ x. set_at d x m) ((==_iff k j).0 p)))
    | inr p ↦ rw (found j, p)
  ]

  shrunk :
      (k v : ℕ) (s s' : List ℕ) (m m' : d.Map (List ℕ))
      → d.find k m ≡ some s
      → s' ≡ set_erase v s
      → shrink_index d k m s' ≡ done m'
      → (j w : ℕ)
      → contains w (set_at d j m')
        ≡ (if (k == j) && (v == w) then false else contains w (set_at d j m))
  unfolding shrink_index
  shrunk k v s [] m m' there e h =
      contains_erased k v s none m m' there e (d.find-erase (List ℕ) k m m' (or_abort-eq-done _ h))
  shrunk k v s (x ∷ rest) m m' there e h = contains_erased k v s (some (x ∷ rest)) m m' there e (
      subst (λ n. (j : ℕ) → d.find j n ≡ (if k == j then some (x ∷ rest) else d.find j m))
        (done_inj h) (d.find-store (List ℕ) k (x ∷ rest) s m there))

  -- The visit is no longer under the key, and nothing else changes.
  pub contains-drop_index :
      (k v : ℕ) (m m' : d.Map (List ℕ))
      → drop_index d k v m ≡ done m'
      → (j w : ℕ)
      → contains w (set_at d j m')
        ≡ (if (k == j) && (v == w) then false else contains w (set_at d j m))
  unfolding drop_index
  contains-drop_index k v m m' e j w = elim (Option-cases (d.find k m)) [
    | inl absent ↦
        let same : m ≡ m' = done_inj (rw (absent, drop_index) at e) in
        rw (← same) (elim (Bool-cases (k == j)) [
          | inl p ↦
              let empty : set_at d j m ≡ [] =
                ap (λ x. set_at d x m) (sym ((==_iff k j).0 p)) ∙ ap or_empty absent in
              rw (p, empty) (ground arith)
          | inr p ↦ rw p
        ])
    | inr (s, there) ↦
        shrunk k v s (set_erase v s) m m' there refl (rw (there, drop_index) at e) j w
  ]

  -- The visit has moved from one key to the other, and nothing else changes.
  pub contains-move_index :
      (old new v : ℕ) (m m' : d.Map (List ℕ))
      → move_index d old new v m ≡ done m'
      → (j w : ℕ)
      → contains w (set_at d j m') ≡ (
          if old == new
          then contains w (set_at d j m)
          else if (new == j) && (v == w)
          then true
          else if (old == j) && (v == w)
          then false
          else contains w (set_at d j m))
  unfolding move_index
  contains-move_index old new v m m' e j w = elim (Bool-cases (old == new)) [
    | inl p ↦
        let same : m ≡ m' = done_inj (rw (p, move_index) at e) in
        rw p (ap (λ x. contains w (set_at d j x)) (sym same))
    | inr p ↦
        let (m₁, dropped, added) =
          bind-eq-done (drop_index d old v m) (add_index d new v) (rw (p, move_index) at e) in
        rw (p, contains-add_index new v m₁ m' added j w, contains-drop_index old v m m₁ dropped j w)
  ]
