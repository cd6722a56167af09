-- ===== src/Processor/Routes/Paths.antt =====
-- What a path of two or three parts is taken apart into.
use highload_cup.Common.{
  arith, ℕ, ◌+◌, ◌-◌, ◌≡◌, ◌≢◌, refl, sym, ap, ◌∙◌, [], ◌∷◌, ◌++◌, none, some, Bytes, length,
  length-append, slice-append, drop-length-append, All, append_assoc, append-nil, ==_false,
}
use highload_cup.Util.Numbers.{find_from}
use highload_cup.Processor.Routes.{find_slash, between, route_within, route}

abbrev pub IsNameByte : ℕ → Type 0
IsNameByte b = b ≢ b'/'

find_from-none : (w : Bytes) (i : ℕ) → All IsNameByte w → find_from w b'/' i ≡ none
unfolding find_from
find_from-none [] i h = refl
find_from-none (b ∷ w) i (hb, h) = rw (==_false b b'/' hb, find_from) (find_from-none w (i + 1) h)

find_from-some :
    (w r : Bytes) (i : ℕ)
    → All IsNameByte w
    → find_from (w ++ b'/' ∷ r) b'/' i ≡ some (i + length w)
unfolding find_from
find_from-some [] r i h = ap some (omega arith)
find_from-some (b ∷ w) r i (hb, h) =
    rw (==_false b b'/' hb, find_from) (find_from-some w r (i + 1) h ∙ ap some (omega arith))

-- The search from an index on, in a text of a known front.
find_slash-some :
    (front w r path : Bytes) (from : ℕ)
    → path ≡ front ++ (w ++ b'/' ∷ r)
    → from ≡ length front
    → All IsNameByte w
    → find_slash path from ≡ some (length front + length w)
find_slash-some front w r path from e f h =
    rw (e, f, drop-length-append front (w ++ b'/' ∷ r)) (find_from-some w r (length front) h)

find_slash-none :
    (front w path : Bytes) (from : ℕ)
    → path ≡ front ++ w
    → from ≡ length front
    → All IsNameByte w
    → find_slash path from ≡ none
find_slash-none front w path from e f h =
    rw (e, f, drop-length-append front w) (find_from-none w (length front) h)

between-part :
    (front w r path : Bytes) (i j : ℕ)
    → path ≡ front ++ (w ++ r)
    → i + 1 ≡ length front
    → j ≡ length front + length w
    → between path i j ≡ w
between-part front w r path i j e f g =
    rw e (slice-append front w r (i + 1) (j - i - 1) f (omega arith))

route-found :
    (path : Bytes) (i j : ℕ)
    → find_slash path 0 ≡ some i
    → find_slash path (i + 1) ≡ some j
    → route path ≡ some (route_within path i j)
unfolding route
route-found path i j e f = rw (route, e, f) refl

within-object :
    (path entity id : Bytes) (i j : ℕ)
    → find_slash path (j + 1) ≡ none
    → between path i j ≡ entity
    → between path j (length path) ≡ id
    → route_within path i j ≡ record { entity = entity; id = id; func = [] }
within-object path entity id i j e f g = rw (route_within, e, f, g) refl

within-call :
    (path entity id func : Bytes) (i j k : ℕ)
    → find_slash path (j + 1) ≡ some k
    → between path i j ≡ entity
    → between path j k ≡ id
    → between path k (length path) ≡ func
    → route_within path i j ≡ record { entity = entity; id = id; func = func }
within-call path entity id func i j k e f g h = rw (route_within, e, f, g, h) refl

-- `/entity/id`.
abbrev pub object_path : Bytes → Bytes → Bytes
object_path entity id = b'/' ∷ (entity ++ (b'/' ∷ id))

-- `/entity/id/func`.
abbrev pub call_path : Bytes → Bytes → Bytes → Bytes
call_path entity id func = object_path entity (id ++ (b'/' ∷ func))

module _ (entity : Bytes) (he : All IsNameByte entity) where
  abbrev front_2 : Bytes
  front_2 = b'/' ∷ (entity ++ b'/' ∷ [])

  regroup : (r : Bytes) → object_path entity r ≡ front_2 ++ r
  regroup r = ap (λ x. b'/' ∷ x) (sym (append_assoc entity (b'/' ∷ []) r))

  size_2 : 1 + length entity + 1 ≡ length front_2
  size_2 = omega (arith, length-append entity (b'/' ∷ []))

  route-two :
      (r : Bytes)
      → route (object_path entity r)
        ≡ some (route_within (object_path entity r) 0 (1 + length entity))
  unfolding find_from
  route-two r =
      route-found (object_path entity r) 0 (1 + length entity) refl
        (find_slash-some (b'/' ∷ []) entity r (object_path entity r) 1 refl refl he)

  entity-between : (r : Bytes) → between (object_path entity r) 0 (1 + length entity) ≡ entity
  entity-between r =
      between-part (b'/' ∷ []) entity (b'/' ∷ r) (object_path entity r) 0 (1 + length entity) refl
        refl refl

  -- A path of two parts, neither of which has a slash, names an object.
  pub route-object_path :
      (id : Bytes)
      → All IsNameByte id
      → route (object_path entity id) ≡ some (record { entity = entity; id = id; func = [] })
  route-object_path id hi =
      let path = object_path entity id in
      let j = 1 + length entity in
      let size : length path ≡ length front_2 + length id =
        ap length (regroup id) ∙ length-append front_2 id in
      route-two id
      ∙ ap some (
          within-object path entity id 0 j
            (find_slash-none front_2 id path (j + 1) (regroup id) size_2 hi) (entity-between id)
            (between-part front_2 id [] path j (length path)
              (regroup id ∙ ap (λ x. front_2 ++ x) (sym (append-nil id))) size_2 size))

  -- A path of three parts names a function of an object; the last part may have any bytes.
  pub route-call_path :
      (id func : Bytes)
      → All IsNameByte id
      → route (call_path entity id func) ≡ some (record { entity = entity; id = id; func = func })
  route-call_path id func hi =
      let rest = id ++ (b'/' ∷ func) in
      let path = object_path entity rest in
      let j = 1 + length entity in
      let k = length front_2 + length id in
      let front_3 = front_2 ++ (id ++ b'/' ∷ []) in
      let regroup_3 : path ≡ front_3 ++ (func ++ []) =
        regroup rest
        ∙ ap (λ x. front_2 ++ x) (sym (append_assoc id (b'/' ∷ []) func))
        ∙ sym (append_assoc front_2 (id ++ b'/' ∷ []) func)
        ∙ ap (λ x. front_3 ++ x) (sym (append-nil func)) in
      let size_3 : k + 1 ≡ length front_3 =
        omega (arith, length-append front_2 (id ++ b'/' ∷ []), length-append id (b'/' ∷ [])) in
      let size : length path ≡ length front_3 + length func =
        ap length regroup_3 ∙ rw append-nil (length-append front_3 func) in
      route-two rest
      ∙ ap some (
          within-call path entity id func 0 j k
            (find_slash-some front_2 id func path (j + 1) (regroup rest) size_2 hi)
            (entity-between rest)
            (between-part front_2 id (b'/' ∷ func) path j k (regroup rest) size_2 refl)
            (between-part front_3 func [] path k (length path) regroup_3 size_3 size))
