-- ===== src/Store/Cache/Objects.antt =====
-- What `get_object` answers for a user and for a location, behind any calls.
use highload_cup.Common.{
  ℕ, ◌≡◌, refl, sym, subst, Bool, true, false, List, [], ◌∷◌, Option, none, some, if◌then◌else◌,
  inl, Bytes, codes, bytes_eq,
}
use highload_cup.Store.HashMap.{HashMap}
use highload_cup.Store.Libs.{Libs, Tm, Run, done, ◌>>=◌}
use highload_cup.Store.User
use highload_cup.Store.User.{User}
use highload_cup.Store.Location
use highload_cup.Store.Location.{Location}
use highload_cup.Store.Visit
use highload_cup.Store.State.{Base, write, construct}
use highload_cup.Store.Insert.{insert}
use highload_cup.Store.Update.{update}
use highload_cup.Store.Read.{get_object}
use highload_cup.Store.Worker.{round}
use highload_cup.Store.Worker.Sets.{bind-eq-done, done_inj}
use highload_cup.Store.Worker.Fresh.{Cached, moved-Cached, round-Cached}
use highload_cup.Store.Cache.{
  IsFreshUser, IsFreshLocation, write-AllCells, user-serializate, location-serializate,
}
use highload_cup.Store.Cache.Calls.{insert-Cached, update-Cached}

-- A call of the base by name, and a round of the worker.
pub data Request : Type 0 where
  insertion : Bytes → Bytes → Request
  change_of : ℕ → Bytes → Bytes → Request
  reading : Bytes → ℕ → Request
  worker_round : Request

module _ {d : HashMap} where
  if-Cached :
      (c : Bool) (x y : Base d × Bytes) → Cached x.0 → Cached y.0 → Cached (if c then x else y).0
  if-Cached true x y h k = h
  if-Cached false x y h k = k

  abbrev pub read_user : Base d → Option ℕ → Base d × Bytes
  read_user b none = (b, [])
  read_user b (some a) =
      let (user, text) = User.serializate (b.user_heap.cell a) false in
      (record b { user_heap = write b.user_heap a user }, text)

  abbrev pub read_location : Base d → Option ℕ → Base d × Bytes
  read_location b none = (b, [])
  read_location b (some a) =
      let (location, text) = Location.serializate (b.location_heap.cell a) false in
      (record b { location_heap = write b.location_heap a location }, text)

  abbrev pub read_visit : Base d → Option ℕ → Base d × Bytes
  read_visit b none = (b, [])
  read_visit b (some a) = (b, Visit.render (b.visit_heap.cell a))

  pub get_object-read :
      (b : Base d) (name : Bytes) (id : ℕ)
      → get_object b name id ≡ (
          if bytes_eq name (codes "users")
          then read_user b (d.find id b.users)
          else if bytes_eq name (codes "visits")
          then read_visit b (d.find id b.visits)
          else if bytes_eq name (codes "locations")
          then read_location b (d.find id b.locations)
          else (b, []))
  unfolding get_object
  get_object-read b name id = refl

  read_user-Cached : (b : Base d) (o : Option ℕ) → Cached b → Cached (read_user b o).0
  read_user-Cached b none h = h
  read_user-Cached b (some a) (h, k) = (
    write-AllCells IsFreshUser b.user_heap _ h (user-serializate (b.user_heap.cell a) false (h a)).1
        a,
    k,
  )

  read_location-Cached : (b : Base d) (o : Option ℕ) → Cached b → Cached (read_location b o).0
  read_location-Cached b none h = h
  read_location-Cached b (some a) (h, k) = (
    h,
    write-AllCells IsFreshLocation b.location_heap _ k
        (location-serializate (b.location_heap.cell a) false (k a)).1 a,
  )

  read_visit-Cached : (b : Base d) (o : Option ℕ) → Cached b → Cached (read_visit b o).0
  read_visit-Cached b none h = h
  read_visit-Cached b (some a) h = h

  get_object-Cached :
      (b : Base d) (name : Bytes) (id : ℕ) → Cached b → Cached (get_object b name id).0
  get_object-Cached b name id h =
      subst (λ (r : Base d × Bytes). Cached r.0) (sym (get_object-read b name id))
        (if-Cached (bytes_eq name (codes "users")) _ _ (read_user-Cached b _ h) (
          if-Cached (bytes_eq name (codes "visits")) _ _ (read_visit-Cached b _ h)
            (if-Cached (bytes_eq name (codes "locations")) _ _ (read_location-Cached b _ h) h)))

-- The first objects of a base have no text.
construct-Cached : (d : HashMap) (libs : Libs) (tm : Tm) → Cached (construct d libs tm)
unfolding construct
construct-Cached d libs tm = ((λ a. inl refl), (λ a. inl refl))

module _ {d : HashMap} (libs : Libs) where
  unfoldable pub request : Base d → Request → Run (Base d)
  unfolding insert update get_object round
  request b (insertion name json) = insert libs b name json >>= λ r. done r.0
  request b (change_of id name json) = update libs b id name json >>= λ r. done r.0
  request b (reading name id) = done (get_object b name id).0
  request b worker_round = round b

  unfoldable pub requests : Base d → List Request → Run (Base d)
  unfolding request
  requests b [] = done b
  requests b (r ∷ rs) = request b r >>= λ b'. requests b' rs

  request-Cached : (b b' : Base d) (r : Request) → request b r ≡ done b' → Cached b → Cached b'
  unfolding request
  request-Cached b b' (insertion name json) e h =
      let (x, f, g) = bind-eq-done (insert libs b name json) (λ r. done r.0) e in
      moved-Cached (done_inj g) (insert-Cached libs b name json x f h)
  request-Cached b b' (change_of id name json) e h =
      let (x, f, g) = bind-eq-done (update libs b id name json) (λ r. done r.0) e in
      moved-Cached (done_inj g) (update-Cached libs b id name json x f h)
  request-Cached b b' (reading name id) e h =
      moved-Cached (done_inj e) (get_object-Cached b name id h)
  request-Cached b b' worker_round e h = round-Cached b b' e h

  requests-Cached :
      (b b' : Base d) (rs : List Request) → requests b rs ≡ done b' → Cached b → Cached b'
  unfolding requests
  requests-Cached b b' [] e h = moved-Cached (done_inj e) h
  requests-Cached b b' (r ∷ rs) e h =
      let (x, f, g) = bind-eq-done (request b r) (λ y. requests y rs) e in
      requests-Cached x b' rs g (request-Cached b x r f h)

  -- Behind any sequence of insertions, updates and readings of objects and of rounds of the worker,
  -- each of which returns, `get_object` answers for a user that is there the text of the fields that
  -- the user has now: no older text is ever answered.
  pub get_object-user :
      (tm : Tm) (rs : List Request) (b : Base d) (id address : ℕ)
      → requests (construct d libs tm) rs ≡ done b
      → d.find id b.users ≡ some address
      → (get_object b (codes "users") id).1 ≡ User.render (b.user_heap.cell address)
  unfolding get_object
  get_object-user tm rs b id address e f =
      let (h, k) = requests-Cached (construct d libs tm) b rs e (construct-Cached d libs tm) in
      rw (get_object, f) (user-serializate (b.user_heap.cell address) false (h address)).0

  -- The same for the locations: behind any such sequence `get_object` answers for a location that is
  -- there the text of the fields that the location has now.
  pub get_object-location :
      (tm : Tm) (rs : List Request) (b : Base d) (id address : ℕ)
      → requests (construct d libs tm) rs ≡ done b
      → d.find id b.locations ≡ some address
      → (get_object b (codes "locations") id).1 ≡ Location.render (b.location_heap.cell address)
  unfolding get_object
  get_object-location tm rs b id address e f =
      let (h, k) = requests-Cached (construct d libs tm) b rs e (construct-Cached d libs tm) in
      rw (get_object, f) (location-serializate (b.location_heap.cell address) false (k address)).0
