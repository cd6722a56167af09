-- ===== src/Server/Loader/Files.antt =====
-- What `load` does with a file that lists objects.
use highload_cup.Common.{
  ℕ, ◌+◌, ◌==◌, ◌≡◌, ◌≢◌, refl, true, ap, ◌∙◌, List, [], ◌∷◌, ◌++◌, Option, none, some,
  if◌then◌else◌, arith, Bytes, All, All-append, map, length, take-length-append, ==_false,
}
use highload_cup.Http.Request.{c_str}
use highload_cup.Store.HashMap.{HashMap}
use highload_cup.Store.Libs.{Libs, Run, done, refused, aborted, hung, ◌>>=◌}
use highload_cup.Store.State.{Base}
use highload_cup.Store.Insert.{insert}
use highload_cup.Server.Loader.{rfind, insert_all, load_file}
use highload_cup.Server.Loader.Scan.{IsTail, ArePlain, listing, object, objects-listing}

rfind_none :
    (c : ℕ) (s : Bytes) (i : ℕ) (found : Option ℕ) → All (λ b. b ≢ c) s → rfind c s i found ≡ found
rfind_none c [] i found h = refl
rfind_none c (b ∷ s) i found (hb, h) = rw (==_false b c hb) (rfind_none c s (i + 1) found h)

-- The place of the last one.
rfind_last :
    (c : ℕ) (front rest : Bytes) (i : ℕ) (found : Option ℕ)
    → All (λ b. b ≢ c) rest
    → rfind c (front ++ c ∷ rest) i found ≡ some (i + length front)
rfind_last c [] rest i found h =
    let same : (c == c) ≡ true = ground arith in
    rw (same, rfind) (rfind_none c rest (i + 1) (some i) h ∙ ap some (omega arith))
rfind_last c (b ∷ front) rest i found h =
    rfind_last c front rest (i + 1) (if b == c then some i else found) h ∙ ap some (omega arith)

-- No zero in a text.
abbrev pub IsWhole : Bytes → Type 0
IsWhole = All (λ c. c ≢ 0)

c_str_whole : (s : Bytes) → IsWhole s → c_str s ≡ s
c_str_whole [] h = refl
c_str_whole (c ∷ s) (hc, h) = rw (==_false c 0 hc) (ap (λ t. c ∷ t) (c_str_whole s h))

continued_same :
    {A B : Type 0} (m : Run A) (f g : A → Run B) → ((a : A) → f a ≡ g a) → (m >>= f) ≡ (m >>= g)
continued_same (done a) f g h = h a
continued_same refused f g h = refl
continued_same aborted f g h = refl
continued_same hung f g h = refl

module _ (libs : Libs) {d : HashMap} where
  -- Each text of a list is inserted whole, in order.
  abbrev pub inserted : Base d → Bytes → List Bytes → Run (Base d)
  inserted b entity [] = done b
  inserted b entity (text ∷ texts) = insert libs b entity text >>= λ r. inserted r.0 entity texts

  insert_all-whole :
      (ps : List (Bytes × Bytes)) (b : Base d) (entity : Bytes)
      → All (λ p. IsWhole p.1) ps
      → insert_all libs b entity (map object ps) ≡ inserted b entity (map object ps)
  unfolding insert_all
  insert_all-whole [] b entity h = refl
  insert_all-whole ((gap, inner) ∷ ps) b entity (hw, h) =
      let text = object (gap, inner) in
      let whole : IsWhole text =
        (omega arith, All-append (λ c. c ≢ 0) inner (b'}' ∷ []) hw (omega arith, tt)) in
      ap (λ t. insert libs b entity t >>= λ r. insert_all libs r.0 entity (map object ps))
        (c_str_whole text whole)
      ∙ continued_same (insert libs b entity text) _ _ (λ r. insert_all-whole ps r.0 entity h)

  -- A file whose name is an entity, an underscore and a rest with no underscore, and that starts with
  -- a brace and then holds objects with no brace and no zero byte in them, with bytes other than
  -- braces before each of them and with no opening brace behind the last, has exactly the texts of
  -- these objects inserted for that entity, in order; as in the source, what an insertion answers
  -- is not read, and one that ends the process ends the loading.
  pub load_file-listing :
      (b : Base d) (entity rest : Bytes) (ps : List (Bytes × Bytes)) (tail : Bytes)
      → All (λ c. c ≢ b'_') rest
      → ArePlain ps
      → All (λ p. IsWhole p.1) ps
      → All IsTail tail
      → load_file libs b (entity ++ b'_' ∷ rest, some (b'{' ∷ listing ps tail))
        ≡ inserted b entity (map object ps)
  unfolding load_file
  load_file-listing b entity rest ps tail hr hp hw ht =
      let start_zero : 0 + length entity ≡ length entity = omega arith in
      rw
        (
          rfind_last b'_' entity rest 0 none hr,
          load_file,
          objects-listing ps tail hp ht,
          start_zero,
          take-length-append entity (b'_' ∷ rest),
        )
        (insert_all-whole ps b entity hw)
