-- ===== src/Store/Worker/Index.antt =====
-- What an index holds, and how the worker's operations on it keep that.
use highload_cup.Common.{
  ℕ, ◌<◌, ◌≡◌, ◌≢◌, sym, ap, subst, ◌∙◌, Bool, true, false, ◌&&◌, List, [], ◌∷◌, some, arith, ◌==◌,
  ==_iff, ==_false, if◌then◌else◌, Bool-cases, inl, inr,
}
use highload_cup.Store.HashMap.{HashMap}
use highload_cup.Store.Libs.{done}
use highload_cup.Store.Visit.{Visit}
use highload_cup.Store.State.{Task, add, change, Heap, write, contains, set_at}
use highload_cup.Store.Worker.{add_index, move_index}
use highload_cup.Store.Worker.Sets.{contains-add_index, contains-move_index}

-- The visit at the address is still to be added to the indexes.
abbrev pub added : ℕ → List Task → Bool
added a [] = false
added a (add b ∷ r) = if b == a then true else added a r
added a (change new b ∷ r) = added a r

-- Each visit of the table has its id, and an address that has been given out.
abbrev pub Owns : (d : HashMap) → d.Map ℕ → Heap Visit → Type 0
Owns d visits heap =
    (id a : ℕ) → d.find id visits ≡ some a → ((heap.cell a).id ≡ id) × (a < heap.next)

-- An index by a key of the visit: under each key stand visits of the table that have the key, and
-- every visit of the table that is not waiting stands under its key.
pub record IndexFor (d : HashMap) (visits : d.Map ℕ) (cell : ℕ → Visit) (key : Visit → ℕ)
    (waits : ℕ → Bool) (index : d.Map (List ℕ)) : Type 0 where
  pub entries :
      (k v : ℕ)
      → contains v (set_at d k index) ≡ true
      → (a : ℕ) × (d.find v visits ≡ some a) × (key (cell a) ≡ k)
  pub present :
      (v a : ℕ)
      → d.find v visits ≡ some a
      → waits a ≡ false
      → contains v (set_at d (key (cell a)) index) ≡ true

pub ==_refl : (a : ℕ) → (a == a) ≡ true
==_refl a = ground arith

both_eq : (a b c e : ℕ) → ((a == b) && (c == e)) ≡ true → (a ≡ b) × (c ≡ e)
both_eq a b c e h = ground arith

module _ (d : HashMap) (visits : d.Map ℕ) (heap : Heap Visit) (owns : Owns d visits heap)
    (key : Visit → ℕ) where
  -- What the place of an entry tells of its address.
  other_address :
      (a c v : ℕ)
      → d.find v visits ≡ some c
      → ((key (heap.cell a) == key (heap.cell c)) && ((heap.cell a).id == v)) ≡ false
      → a ≢ c
  other_address a c v f p e =
      let of_c = (owns v c f).0 in
      let same_key : key (heap.cell a) ≡ key (heap.cell c) = ap (λ x. key (heap.cell x)) e in
      let same_id : (heap.cell a).id ≡ v = ap (λ x. (heap.cell x).id) e ∙ of_c in ground arith

  module _ (waits : ℕ → Bool) (a : ℕ) (index index' : d.Map (List ℕ))
      (there : d.find (heap.cell a).id visits ≡ some a) where
    -- The visit at the address is added.
    pub add-IndexFor :
        IndexFor d visits heap.cell key (λ c. if a == c then true else waits c) index
        → add_index d (key (heap.cell a)) (heap.cell a).id index ≡ done index'
        → IndexFor d visits heap.cell key waits index'
    add-IndexFor h e = record {
      entries = λ k v c. elim (Bool-cases ((key (heap.cell a) == k) && ((heap.cell a).id == v))) [
        | inl p ↦
            let (same_key, same_id) = both_eq (key (heap.cell a)) k (heap.cell a).id v p in
            (a, subst (λ x. d.find x visits ≡ some a) same_id there, same_key)
        | inr p ↦ h.entries k v (ground (arith, now k v))
      ];
      present = λ v c f w.
          elim (Bool-cases ((key (heap.cell a) == key (heap.cell c)) && ((heap.cell a).id == v))) [
            | inl p ↦ ground (arith, now (key (heap.cell c)) v)
            | inr p ↦
                let before = h.present v c f (rw (==_false a c (other_address a c v f p)) w) in
                ground (arith, now (key (heap.cell c)) v)
          ];
    }
      where
        now :
            (k v : ℕ)
            → contains v (set_at d k index') ≡ (
                if (key (heap.cell a) == k) && ((heap.cell a).id == v)
                then true
                else contains v (set_at d k index))
        now k v = contains-add_index d (key (heap.cell a)) (heap.cell a).id index index' e k v

    -- The visit at the address is changed.
    pub change-IndexFor :
        (new : Visit)
        → IndexFor d visits heap.cell key waits index
        → move_index d (key (heap.cell a)) (key new) (heap.cell a).id index ≡ done index'
        → IndexFor d visits (write heap a new).cell key waits index'
    change-IndexFor new h e = record {
      entries = λ k v c. elim (Bool-cases ((key new == k) && ((heap.cell a).id == v))) [
        | inl p ↦
            let (same_key, same_id) = both_eq (key new) k (heap.cell a).id v p in
            (a, subst (λ x. d.find x visits ≡ some a) same_id there, rw ==_refl same_key)
        | inr p ↦ stays k v p c
      ];
      present = λ v c f w. elim (Bool-cases (a == c)) [
        | inl q ↦ rw q (moved v c f w ((==_iff a c).0 q))
        | inr q ↦
            rw q (ground (arith, now (key (heap.cell c)) v, h.present v c f w, other_id v c f q))
      ];
    }
      where
        now :
            (k v : ℕ)
            → contains v (set_at d k index') ≡ (
                if key (heap.cell a) == key new
                then contains v (set_at d k index)
                else if (key new == k) && ((heap.cell a).id == v)
                then true
                else if (key (heap.cell a) == k) && ((heap.cell a).id == v)
                then false
                else contains v (set_at d k index))
        now k v =
            contains-move_index d (key (heap.cell a)) (key new) (heap.cell a).id index index' e k v

        stays :
            (k v : ℕ)
            → ((key new == k) && ((heap.cell a).id == v)) ≡ false
            → contains v (set_at d k index') ≡ true
            → (x : ℕ) × (d.find v visits ≡ some x) × (key ((write heap a new).cell x) ≡ k)
        stays k v p c =
            let before : contains v (set_at d k index) ≡ true = ground (arith, now k v) in
            let (x, fx, kx) = h.entries k v before in
            elim (Bool-cases (a == x)) [
              | inl q ↦
                  let same : a ≡ x = (==_iff a x).0 q in
                  let same_id : (heap.cell a).id ≡ v =
                    ap (λ y. (heap.cell y).id) same ∙ (owns v x fx).0 in
                  let same_key : key (heap.cell a) ≡ k = ap (λ y. key (heap.cell y)) same ∙ kx in
                  absurd (ground (arith, now k v))
              | inr q ↦ (x, fx, rw q kx)
            ]

        moved :
            (v c : ℕ)
            → d.find v visits ≡ some c
            → waits c ≡ false
            → a ≡ c
            → contains v (set_at d (key new) index') ≡ true
        moved v c f w same =
            let same_id : (heap.cell a).id ≡ v = ap (λ y. (heap.cell y).id) same ∙ (owns v c f).0 in
            let before : contains v (set_at d (key (heap.cell a)) index) ≡ true =
              subst (λ y. contains v (set_at d (key (heap.cell y)) index) ≡ true) (sym same)
                (h.present v c f w) in
            elim (Bool-cases (key (heap.cell a) == key new)) [
              | inl q ↦
                  now (key new) v
                  ∙ rw q
                      (subst (λ y. contains v (set_at d y index) ≡ true) ((==_iff _ _).0 q) before)
              | inr q ↦ now (key new) v ∙ rw (q, same_id, ==_refl, ==_refl)
            ]

        other_id :
            (v c : ℕ)
            → d.find v visits ≡ some c
            → (a == c) ≡ false
            → ((heap.cell a).id == v) ≡ false
        other_id v c f q = ==_false (heap.cell a).id v λ e.
            let at_v : d.find v visits ≡ some a = subst (λ x. d.find x visits ≡ some a) e there in
            let same : some a ≡ some c = sym at_v ∙ f in ground arith
