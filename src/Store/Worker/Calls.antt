-- ===== src/Store/Worker/Calls.antt =====
-- Calls that write visits, one after the other, and the indexes behind a last round of the worker.
use highload_cup.Common.{ℕ, ◌≡◌, refl, subst, true, List, [], ◌∷◌, some, ◌↔◌, Bytes}
use highload_cup.Store.HashMap.{HashMap}
use highload_cup.Store.Libs.{Libs, Tm, Run, done, ◌>>=◌}
use highload_cup.Store.State.{Base, contains, set_at, construct}
use highload_cup.Store.Insert.{insert_visit}
use highload_cup.Store.Update.{update_visit}
use highload_cup.Store.Worker.{round}
use highload_cup.Store.Worker.Sets.{bind-eq-done, done_inj}
use highload_cup.Store.Worker.Steps.{Reach, here}
use highload_cup.Store.Worker.Handlers.{
  idle, insert_visit-Reach, update_visit-Reach, round-Reach, Reach-trans,
}
use highload_cup.Store.Worker.Reached.{started, user_index_settled}

-- A call, and a round of the worker.
pub data Call : Type 0 where
  insertion : Bytes → Call
  change_of : ℕ → Bytes → Call
  worker_round : Call

module _ {d : HashMap} (libs : Libs) where
  unfoldable pub call : Base d → Call → Run (Base d)
  unfolding insert_visit update_visit round
  call b (insertion json) = insert_visit libs b json >>= λ r. done r.0
  call b (change_of id json) = update_visit libs b id json >>= λ r. done r.0
  call b worker_round = round b

  unfoldable pub calls : Base d → List Call → Run (Base d)
  unfolding call
  calls b [] = done b
  calls b (c ∷ cs) = call b c >>= λ b'. calls b' cs

  call-Reach : (b b' : Base d) (c : Call) → call b c ≡ done b' → Reach libs (idle b) (idle b')
  unfolding call
  call-Reach b b' (insertion json) h =
      let ((x, res), e, f) = bind-eq-done (insert_visit libs b json) (λ r. done r.0) h in
      subst (λ y. Reach libs (idle b) (idle y)) (done_inj f)
        (insert_visit-Reach libs b x json res e)
  call-Reach b b' (change_of id json) h =
      let ((x, res), e, f) = bind-eq-done (update_visit libs b id json) (λ r. done r.0) h in
      subst (λ y. Reach libs (idle b) (idle y)) (done_inj f)
        (update_visit-Reach libs b x id json res e)
  call-Reach b b' worker_round h = round-Reach libs b b' h

  pub calls-Reach :
      (b b' : Base d) (cs : List Call) → calls b cs ≡ done b' → Reach libs (idle b) (idle b')
  unfolding calls
  calls-Reach b b' [] h = subst (λ y. Reach libs (idle b) (idle y)) (done_inj h) here
  calls-Reach b b' (c ∷ cs) h =
      let (x, e, f) = bind-eq-done (call b c) (λ y. calls y cs) h in
      Reach-trans libs (call-Reach b x c e) (calls-Reach x b' cs f)

  -- Any sequence of insertions and updates of visits and of rounds of the worker, each of which
  -- returns, leaves the index of users right if it leaves the queue of tasks empty: a visit stands
  -- under a user exactly when the table has a visit of that id, and its user is that one.
  pub calls-user_index :
      (tm : Tm) (cs : List Call) (b : Base d)
      → calls (construct d libs tm) cs ≡ done b
      → b.tasks ≡ []
      → (u v : ℕ)
      → contains v (set_at d u b.user_visit) ≡ true
        ↔ ((a : ℕ) × (d.find v b.visits ≡ some a) × ((b.visit_heap.cell a).user ≡ u))
  unfolding started
  calls-user_index tm cs b h empty =
      user_index_settled libs tm (idle b) (calls-Reach (construct d libs tm) b cs h)
        (λ a. rw empty refl)
