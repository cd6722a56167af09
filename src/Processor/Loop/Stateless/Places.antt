-- ===== src/Processor/Loop/Stateless/Places.antt =====
-- The buffer and the place of the last answer, from one request to the next.
use highload_cup.Common.{
  ℕ, zero, suc, ◌+◌, ◌≤◌, ◌<◌, ◌≡◌, ◌⊎◌, inl, inr, refl, sym, ap, ◌∙◌, [], ◌∷◌, ◌++◌, arith, Bytes,
  codes, length, drop, set,
}
use highload_cup.Common.Text.{to_string}
use highload_cup.Store.HashMap.{HashMap}
use highload_cup.Processor.Answers.{
  Reply, ok200, not_found, bad_request, empty_object, answer200, send, send200,
}
use highload_cup.Processor.Loop.{buffer_size, Worker}

-- The buffer has its size, and the last answer is none or begins with the constant text.
abbrev pub IsReady : {d : HashMap} → Worker d → Type 0
IsReady w =
    (length w.buffer ≡ buffer_size)
    × ((w.m_answer200 ≡ []) ⊎ ((old : Bytes) × (w.m_answer200 ≡ answer200 ++ old)))

-- `m_answer200` is only a place: the answer is the same as in an empty one.
send200-place :
    (m_answer200 text : Bytes)
    → (m_answer200 ≡ []) ⊎ ((old : Bytes) × (m_answer200 ≡ answer200 ++ old))
    → send200 m_answer200 text
      ≡ answer200 ++ (to_string (length text) ++ (codes "\r\n\r\n" ++ text))
unfolding send200
send200-place m text (inl e) = rw e refl
send200-place m text (inr (old, e)) = rw e refl

pub send-place :
    (m_answer200 : Bytes) (reply : Reply)
    → (m_answer200 ≡ []) ⊎ ((old : Bytes) × (m_answer200 ≡ answer200 ++ old))
    → (send m_answer200 reply).0 ≡ (send [] reply).0
unfolding send
send-place m (ok200 text) h = send200-place m text h ∙ sym (send200-place [] text (inl refl))
send-place m not_found h = refl
send-place m bad_request h = refl
send-place m empty_object h = refl

pub send-kept :
    (m_answer200 : Bytes) (reply : Reply)
    → (m_answer200 ≡ []) ⊎ ((old : Bytes) × (m_answer200 ≡ answer200 ++ old))
    → ((send m_answer200 reply).1 ≡ [])
      ⊎ ((old : Bytes) × ((send m_answer200 reply).1 ≡ answer200 ++ old))
unfolding send
send-kept m (ok200 text) h = inr (_, send200-place m text h)
send-kept m not_found h = h
send-kept m bad_request h = h
send-kept m empty_object h = h

pub length-set : (xs : Bytes) (i v : ℕ) → length (set xs i v) ≡ length xs
length-set [] i v = refl
length-set (x ∷ xs) zero v = refl
length-set (x ∷ xs) (suc i) v = ap suc (length-set xs i v)

-- What a `read` leaves of the buffer behind it.
pub drop-cons :
    (n : ℕ) (xs : Bytes)
    → n < length xs
    → (o : ℕ) × (old : Bytes) × (drop n xs ≡ o ∷ old) × (n + length (o ∷ old) ≡ length xs)
drop-cons n [] h = absurd (omega arith)
drop-cons zero (x ∷ xs) h = (x, xs, refl, omega arith)
drop-cons (suc n) (x ∷ xs) h =
    let (o, old, e, m) = drop-cons n xs (omega arith) in (o, old, e, omega arith)

pub drop-nil : (n : ℕ) (xs : Bytes) → length xs ≤ n → drop n xs ≡ []
drop-nil zero [] h = refl
drop-nil (suc n) [] h = refl
drop-nil zero (x ∷ xs) h = absurd (omega arith)
drop-nil (suc n) (x ∷ xs) h = drop-nil n xs (omega arith)
