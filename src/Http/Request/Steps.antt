-- ===== src/Http/Request/Steps.antt =====
-- The loop of `parse` over the pieces of a request line.
use highload_cup.Common.{
  ℕ, ◌+◌, ◌-◌, ◌<◌, ◌≡◌, ◌≢◌, ◌⊎◌, refl, ap, ◌∙◌, true, Bool, [], ◌∷◌, ◌++◌, arith, ◌==◌, ltb,
  lt→ltb, if◌then◌else◌, inl, inr, Bytes, length, slice-append, All,
}
use highload_cup.Http.Method.{get}
use highload_cup.Http.Request.{
  State, in_path, in_options, in_version, in_header, Proto, Parser, Next, going, returned, thrown,
  token, step_path, step_version, step_header, step_in, parsed,
}
use highload_cup.Http.Request.Loop.{read_loop}

-- A byte that a state passes over.
abbrev pub Passes : Bytes → Parser → ℕ → Type 0
Passes raw p b = (count : ℕ) → step_in p.state raw p b count ≡ going p

pub step_going :
    (raw rest : Bytes) (b count : ℕ) (p p' : Parser)
    → step_in p.state raw p b count ≡ going p'
    → read_loop raw (b ∷ rest) count p ≡ read_loop raw rest (count + 1) p'
unfolding read_loop
step_going raw rest b count p p' e = rw (e, read_loop)

pub step_returned :
    (raw rest : Bytes) (b count : ℕ) (p : Parser) (res : Bool) (proto : Proto)
    → step_in p.state raw p b count ≡ returned res proto
    → read_loop raw (b ∷ rest) count p ≡ parsed res proto raw
unfolding read_loop
step_returned raw rest b count p res proto e = rw (e, read_loop)

pub skip :
    (raw w rest : Bytes) (count : ℕ) (p : Parser)
    → All (Passes raw p) w
    → read_loop raw (w ++ rest) count p ≡ read_loop raw rest (count + length w) p
skip raw [] rest count p h = ap (λ n. read_loop raw rest n p) (omega arith)
skip raw (b ∷ w) rest count p (hb, h) =
    step_going raw (w ++ rest) b count p p (hb count)
    ∙ skip raw w rest (count + 1) p h
    ∙ ap (λ n. read_loop raw rest n p) (omega arith)

-- A byte of a path, and one of a version or a header line.
abbrev pub IsPathByte : ℕ → Type 0
IsPathByte b = (b ≢ b' ') × (b ≢ b'?')

abbrev pub IsLineByte : ℕ → Type 0
IsLineByte b = (b ≢ b'\n') × (b ≢ b'\r')

-- The state behind the path, for the separator that ended it.
abbrev pub behind_path : ℕ → State
behind_path sep = if sep == b'?' then in_options else in_version

pub path-Passes :
    (raw : Bytes) (p : Parser) (w : Bytes)
    → p.state ≡ in_path
    → All IsPathByte w
    → All (Passes raw p) w
unfolding step_path
path-Passes raw p [] e h = tt
path-Passes raw p (b ∷ w) e (hb, h) = ((λ count. ground arith), path-Passes raw p w e h)

pub version-Passes :
    (raw : Bytes) (p : Parser) (w : Bytes)
    → p.state ≡ in_version
    → All IsLineByte w
    → All (Passes raw p) w
unfolding step_version
version-Passes raw p [] e h = tt
version-Passes raw p (b ∷ w) e (hb, h) = ((λ count. ground arith), version-Passes raw p w e h)

path_ends :
    (raw path : Bytes) (sep : ℕ) (p : Parser) (count : ℕ)
    → p.state ≡ in_path
    → (sep ≡ b' ') ⊎ (sep ≡ b'?')
    → ltb 0 (count - p.current) ≡ true
    → token raw p count ≡ path
    → step_in p.state raw p sep count
      ≡ going (record p {
        proto = record p.proto { path = path };
        state = behind_path sep;
        current = count + 1;
      })
unfolding step_path
path_ends raw path sep p count at (inl e) full t = rw (at, e, full, t)
path_ends raw path sep p count at (inr e) full t = rw (at, e, full, t)

pub length_pos : (s : Bytes) → s ≢ [] → 0 < length s
length_pos [] h = absurd (h refl)
length_pos (c ∷ s) h = omega arith

module _ (raw before path rest : Bytes) (sep : ℕ) (split : raw ≡ before ++ (path ++ rest))
    (p : Parser) (at : p.state ≡ in_path) (from : p.current ≡ length before)
    (bytes : All IsPathByte path) (ne : path ≢ []) (ends : (sep ≡ b' ') ⊎ (sep ≡ b'?')) where
  -- The path is read, and the state is that for what follows its separator.
  pub run_path :
      (todo : Bytes)
      → read_loop raw (path ++ sep ∷ todo) (length before) p
        ≡ read_loop raw todo (length before + length path + 1) (record p {
          proto = record p.proto { path = path };
          state = behind_path sep;
          current = length before + length path + 1;
        })
  run_path todo =
      skip raw path (sep ∷ todo) (length before) p (path-Passes raw p path at bytes)
      ∙ step_going raw todo sep (length before + length path) p _
          (path_ends raw path sep p (length before + length path) at ends full token-path)
    where
      token-path : token raw p (length before + length path) ≡ path
      token-path =
          rw (split, from) (slice-append before path rest (length before) _ refl (omega arith))

      full : ltb 0 (length before + length path - p.current) ≡ true
      full = lt→ltb _ _ (omega (arith, length_pos path ne))

-- What a byte of the header does to a GET request.
abbrev Keeps : Parser → Next → Type 0
Keeps p (going p') = (p'.state ≡ in_header) × (p'.proto ≡ p.proto)
Keeps p (returned res proto) = (res ≡ true) × (proto ≡ p.proto)
Keeps p (thrown e) = ⊥

header-Keeps :
    (p : Parser) (b count : ℕ)
    → p.proto.method ≡ get
    → p.state ≡ in_header
    → Keeps p (step_header p b count)
unfolding step_header
header-Keeps p b count m at = ground arith

-- The header of a GET request is passed over, whatever it holds.
pub run_header_get :
    (raw todo : Bytes) (count : ℕ) (p : Parser)
    → p.state ≡ in_header
    → p.proto.method ≡ get
    → read_loop raw todo count p ≡ parsed true p.proto raw
unfolding read_loop
run_header_get raw [] count p at m = refl
run_header_get raw (b ∷ todo) count p at m =
    go (λ p' e h. run_header_get raw todo (count + 1) p' e h) (step_header p b count)
      (header-Keeps p b count m at) (rw at)
  where
    go :
        ((p' : Parser)
          → p'.state ≡ in_header
          → p'.proto.method ≡ get
          → read_loop raw todo (count + 1) p' ≡ parsed true p'.proto raw)
        → (n : Next) → Keeps p n
        → step_in p.state raw p b count ≡ n
        → read_loop raw (b ∷ todo) count p ≡ parsed true p.proto raw
    go ih (going p') (s, e) h =
        step_going raw todo b count p p' h
        ∙ ih p' s (ap (λ (x : Proto). x.method) e ∙ m)
        ∙ ap (λ x. parsed true x raw) e
    go ih (returned res proto) (r, e) h = step_returned raw todo b count p res proto h ∙ rw (r, e)
    go ih (thrown f) k h = absurd k
