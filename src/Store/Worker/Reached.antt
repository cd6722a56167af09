-- ===== src/Store/Worker/Reached.antt =====
-- The invariant of the indexes over all runs, and what it gives when no task is waiting.
use highload_cup.Common.{arith, ℕ, ◌≡◌, refl, subst, sym, Bool, true, false, List, [], some, ◌↔◌}
use highload_cup.Store.HashMap.{HashMap}
use highload_cup.Store.Libs.{Libs, Tm}
use highload_cup.Store.Visit.{Visit}
use highload_cup.Store.State.{add, change, contains, set_at, construct}
use highload_cup.Store.Worker.Index.{IndexFor}
use highload_cup.Store.Worker.Steps.{
  System, Step, place, place_taken, copy_visit, push, take_tasks, work, other, Reach, here, next,
  waits, Indexed,
}
use highload_cup.Store.Worker.Invariant.{placed-Indexed, taken-Indexed}
use highload_cup.Store.Worker.Queue.{
  pushed-Indexed, took-Indexed, copied-Indexed, added-Indexed, changed-Indexed, other-Indexed,
}

-- A process that has just been started.
unfoldable pub started : (d : HashMap) → Libs → Tm → System d
started d libs tm = record { base = construct d libs tm; in_flight = []; visits_temp = [] }

nothing : {A : Type 0} (d : HashMap) (id a : ℕ) → d.find id d.empty ≡ some a → A
nothing d id a f = let e = d.find-empty ℕ id in absurd (ground arith)

empty_index :
    (d : HashMap) (cell : ℕ → Visit) (key : Visit → ℕ) (w : ℕ → Bool)
    → IndexFor d d.empty cell key w d.empty
empty_index d cell key w = record {
  entries = λ k v c.
      let e : contains v (set_at d k d.empty) ≡ false = rw (d.find-empty (List ℕ) k) refl in
      absurd (ground arith);
  present = λ v a f e. nothing d v a f;
}

module _ {d : HashMap} (libs : Libs) where
  pub Step-Indexed : (s t : System d) → Step libs s t → Indexed s → Indexed t
  Step-Indexed s t (place visit b e same) h =
      subst Indexed (sym same) (placed-Indexed s h visit b e)
  Step-Indexed s t (place_taken visit b e same) h =
      subst Indexed (sym same) (taken-Indexed s h visit b e)
  Step-Indexed s t (copy_visit id a json new f e same) h =
      subst Indexed (sym same) (copied-Indexed s h libs id a json new f e)
  Step-Indexed s t (push before after task e same) h =
      subst Indexed (sym same) (pushed-Indexed s h before after task e)
  Step-Indexed s t (take_tasks e same) h = subst Indexed (sym same) (took-Indexed s h e)
  Step-Indexed s t (work (add a) rest b e p same) h =
      subst Indexed (sym same) (added-Indexed s h a rest b e p)
  Step-Indexed s t (work (change new a) rest b e p same) h =
      subst Indexed (sym same) (changed-Indexed s h a new rest b e p)
  Step-Indexed s t (other b e f g k l same) h =
      subst Indexed (sym same) (other-Indexed s h b e f g k l)

  pub run-Indexed : {s t : System d} → Reach libs s t → Indexed s → Indexed t
  run-Indexed here h = h
  run-Indexed (next r step) h = Step-Indexed _ _ step (run-Indexed r h)

  started-Indexed : (tm : Tm) → Indexed (started d libs tm)
  unfolding started construct
  started-Indexed tm = record {
    owns = λ id a f. nothing d id a f;
    temp_ok = tt;
    tasks_ok = tt;
    flight_ok = tt;
    by_user = empty_index d _ _ _;
    by_location = empty_index d _ _ _;
  }

  -- In every state that a run of handlers and worker reaches from a started process, whatever the
  -- order of their steps: every entry of the two indexes is a visit of the table with that key, every
  -- visit that waits for no insertion is under its keys, every visit of the table has the id that it
  -- is found by, and each task points to a visit of the table that has the id of its copy.
  pub Reach-Indexed : (tm : Tm) (s : System d) → Reach libs (started d libs tm) s → Indexed s
  Reach-Indexed tm s r = run-Indexed r (started-Indexed tm)

settled_index :
    (d : HashMap) (visits : d.Map ℕ) (cell : ℕ → Visit) (key : Visit → ℕ) (w : ℕ → Bool)
    (index : d.Map (List ℕ))
    → ((a : ℕ) → w a ≡ false)
    → IndexFor d visits cell key w index
    → (k v : ℕ)
    → contains v (set_at d k index) ≡ true
      ↔ ((a : ℕ) × (d.find v visits ≡ some a) × (key (cell a) ≡ k))
settled_index d visits cell key w index none_waits x k v = (
  x.entries k v,
  λ (a, f, e). subst (λ y. contains v (set_at d y index) ≡ true) e (x.present v a f (none_waits a)),
)

module _ {d : HashMap} (libs : Libs) (tm : Tm) (s : System d) (r : Reach libs (started d libs tm) s)
    (none_waits : (a : ℕ) → waits s a ≡ false) where
  -- In every state that is reached from a started process, if no insertion of a visit waits (to be
  -- pushed, in the queue, or with the worker), a visit stands under a user in the index exactly when
  -- the table has a visit of that id, and its user is that one. Updates may be waiting.
  pub user_index_settled :
      (u v : ℕ)
      → contains v (set_at d u s.base.user_visit) ≡ true
        ↔ ((a : ℕ) × (d.find v s.base.visits ≡ some a) × ((s.base.visit_heap.cell a).user ≡ u))
  user_index_settled =
      settled_index d _ _ (λ x. x.user) _ _ none_waits (Reach-Indexed libs tm s r).by_user

  -- The same for the locations: if no insertion of a visit waits in a state that is reached, a visit
  -- stands under a location exactly when the table has a visit of that id at that location.
  pub location_index_settled :
      (l v : ℕ)
      → contains v (set_at d l s.base.location_visit) ≡ true
        ↔ ((a : ℕ) × (d.find v s.base.visits ≡ some a) × ((s.base.visit_heap.cell a).location ≡ l))
  location_index_settled =
      settled_index d _ _ (λ x. x.location) _ _ none_waits (Reach-Indexed libs tm s r).by_location
