-- ===== src/Store/Worker/Growth.antt =====
-- What stays true of the visits and the indexes when a visit is placed.
use highload_cup.Common.{
  ℕ, ◌≡◌, refl, sym, ap, subst, ◌∙◌, Bool, true, false, ◌||◌, List, [], ◌∷◌, ◌++◌, some, arith,
  ==_false, inl, inr, ◌⊎◌, All,
}
use highload_cup.Store.HashMap.{HashMap}
use highload_cup.Store.Visit.{Visit}
use highload_cup.Store.State.{Task, add, change, Heap, alloc, contains, set_at}
use highload_cup.Store.Worker.Index.{added, Owns, IndexFor}
use highload_cup.Store.Worker.Steps.{TaskOk}

pub added-append : (a : ℕ) (x y : List Task) → added a (x ++ y) ≡ (added a x || added a y)
added-append a [] y = refl
added-append a (add b ∷ x) y = ground (arith, added-append a x y)
added-append a (change new b ∷ x) y = added-append a x y

module _ (d : HashMap) where
  pub IndexFor-waits :
      (visits : d.Map ℕ) (cell : ℕ → Visit) (key : Visit → ℕ) (w w' : ℕ → Bool)
      (index : d.Map (List ℕ))
      → ((a : ℕ) → w' a ≡ false → w a ≡ false)
      → IndexFor d visits cell key w index
      → IndexFor d visits cell key w' index
  IndexFor-waits visits cell key w w' index h x = record {
    entries = x.entries;
    present = λ v a f e. x.present v a f (h a e);
  }

  -- A table that has grown by at most one entry, for a new object.
  module _ (visits vs : d.Map ℕ) (heap : Heap Visit) (visit : Visit) (owns : Owns d visits heap)
      (keeps : (j a : ℕ) → d.find j visits ≡ some a → d.find j vs ≡ some a)
      (adds : (j a : ℕ)
        → d.find j vs ≡ some a
        → (d.find j visits ≡ some a) ⊎ ((visit.id ≡ j) × (heap.next ≡ a))) where
    old_cell : (j a : ℕ) → d.find j visits ≡ some a → (alloc heap visit).cell a ≡ heap.cell a
    old_cell j a f = let (_, lt) = owns j a f in rw (==_false heap.next a (omega arith))

    pub grow-Owns : Owns d vs (alloc heap visit)
    grow-Owns j a f = elim (adds j a f) [
      | inl old ↦ (
        ap (λ (x : Visit). x.id) (old_cell j a old) ∙ (owns j a old).0,
        let (_, lt) = owns j a old in omega arith,
      )
      | inr (same, at) ↦ (ground arith, omega arith)
    ]

    pub grow-TaskOk :
        (task : Task) → TaskOk d visits heap task → TaskOk d vs (alloc heap visit) task
    grow-TaskOk (add a) f = rw (old_cell _ a f) (keeps _ a f)
    grow-TaskOk (change new a) (f, e) = (rw (old_cell _ a f) (keeps _ a f), rw (old_cell _ a f) e)

    pub grow-All :
        (l : List Task) → All (TaskOk d visits heap) l → All (TaskOk d vs (alloc heap visit)) l
    grow-All [] h = tt
    grow-All (t ∷ l) (h, r) = (grow-TaskOk t h, grow-All l r)

    pub grow-IndexFor :
        (key : Visit → ℕ) (w w' : ℕ → Bool) (index : d.Map (List ℕ))
        → ((a : ℕ) → w' a ≡ false → w a ≡ false)
        → ((j a : ℕ) → d.find j vs ≡ some a → w' a ≡ false → d.find j visits ≡ some a)
        → IndexFor d visits heap.cell key w index
        → IndexFor d vs (alloc heap visit).cell key w' index
    grow-IndexFor key w w' index less old x = record {
      entries =
          λ k v c. let (a, f, e) = x.entries k v c in (a, keeps v a f, ap key (old_cell v a f) ∙ e);
      present = λ v a f e.
          let before = old v a f e in
          subst (λ (c : Visit). contains v (set_at d (key c) index) ≡ true)
            (sym (old_cell v a before)) (x.present v a before (less a e));
    }
