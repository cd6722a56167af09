-- ===== src/Store/Worker/Steps.antt =====
-- The handlers and the worker as one system of steps, and the invariant of the two indexes.
-- A handler that adds or changes a visit enters two critical sections one after the other; what it
-- is to push in the second one is in flight between them, and other steps may come between.
use highload_cup.Common.{ℕ, ◌≡◌, Bool, true, false, ◌||◌, List, [], ◌∷◌, ◌++◌, some, All, Bytes}
use highload_cup.Store.HashMap.{HashMap}
use highload_cup.Store.Libs.{Libs, done}
use highload_cup.Store.Visit
use highload_cup.Store.Visit.{Visit}
use highload_cup.Store.State.{Base, Task, add, change, Heap}
use highload_cup.Store.Insert.{place_visit, push_task}
use highload_cup.Store.Worker.{process}
use highload_cup.Store.Worker.Index.{added, Owns, IndexFor}

pub record System (d : HashMap) : Type 0 where
  pub base : Base d
  pub in_flight : List Task
  -- The tasks that the worker has taken.
  pub visits_temp : List Task

module _ {d : HashMap} (libs : Libs) where
  pub data Step (s : System d) (t : System d) : Type 0 where
    -- `insert`, first section: a new visit, or one whose id is taken.
    place :
        (visit : Visit) (b : Base d)
        → place_visit s.base visit ≡ done (b, true)
        → t ≡ record s { base = b; in_flight = add s.base.visit_heap.next ∷ s.in_flight }
        → Step s t
    place_taken :
        (visit : Visit) (b : Base d)
        → place_visit s.base visit ≡ done (b, false)
        → t ≡ record s { base = b }
        → Step s t
    -- `update`, first section: the copy is read from the document.
    copy_visit :
        (id a : ℕ) (json : Bytes) (new : Visit)
        → d.find id s.base.visits ≡ some a
        → Visit.deserializate_update libs (Visit.copy (s.base.visit_heap.cell a)) json ≡ done new
        → t ≡ record s { in_flight = change new a ∷ s.in_flight }
        → Step s t
    -- The second section of both.
    push :
        (before after : List Task) (task : Task)
        → s.in_flight ≡ before ++ task ∷ after
        → t ≡ record s { base = push_task s.base task; in_flight = before ++ after }
        → Step s t
    -- The worker takes the queue.
    take_tasks :
        s.visits_temp ≡ []
        → t ≡ record s {
          base = record s.base { tasks = []; data_visit_flag = false };
          visits_temp = s.base.tasks;
        }
        → Step s t
    -- The worker processes a task.
    work :
        (task : Task) (rest : List Task) (b : Base d)
        → s.visits_temp ≡ task ∷ rest
        → process s.base task ≡ done b
        → t ≡ record s { base = b; visits_temp = rest }
        → Step s t
    -- Any call on users and locations, and any read, leaves the visits and the indexes alone.
    other :
        (b : Base d)
        → b.visits ≡ s.base.visits
        → b.visit_heap ≡ s.base.visit_heap
        → b.user_visit ≡ s.base.user_visit
        → b.location_visit ≡ s.base.location_visit
        → b.tasks ≡ s.base.tasks
        → t ≡ record s { base = b }
        → Step s t

  pub data Reach (s : System d) : System d → Type 0 where
    here : Reach s s
    next : {t u : System d} → Reach s t → Step t u → Reach s u

-- A task points to a visit of the table, and its copy has the visit's id.
abbrev pub TaskOk : (d : HashMap) → d.Map ℕ → Heap Visit → Task → Type 0
TaskOk d visits heap (add a) = d.find (heap.cell a).id visits ≡ some a
TaskOk d visits heap (change new a) =
    (d.find (heap.cell a).id visits ≡ some a) × (new.id ≡ (heap.cell a).id)

module _ {d : HashMap} where
  abbrev pub waits : System d → ℕ → Bool
  waits s a = added a s.visits_temp || (added a s.base.tasks || added a s.in_flight)

  -- Every key of an index holds visits that are in the table with that key, and a visit of the
  -- table that waits for no insertion stands under its user and under its location.
  pub record Indexed (s : System d) : Type 0 where
    pub owns : Owns d s.base.visits s.base.visit_heap
    pub temp_ok : All (TaskOk d s.base.visits s.base.visit_heap) s.visits_temp
    pub tasks_ok : All (TaskOk d s.base.visits s.base.visit_heap) s.base.tasks
    pub flight_ok : All (TaskOk d s.base.visits s.base.visit_heap) s.in_flight
    pub by_user :
        IndexFor d s.base.visits s.base.visit_heap.cell (λ v. v.user) (waits s) s.base.user_visit
    pub by_location :
        IndexFor d s.base.visits s.base.visit_heap.cell
          (λ v. v.location)
          (waits s)
          s.base.location_visit
