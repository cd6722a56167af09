-- ===== src/Server/Turns.antt =====
-- Whose turn it is.
use highload_cup.Common.{
  arith, ℕ, zero, suc, ◌+◌, ◌-◌, ◌%◌, ◌<◌, ◌≡◌, refl, ap, ◌∙◌, List, [], ◌∷◌, some, length,
  get_elem?,
}
use highload_cup.Server.{threads_amount, give_all}

-- The k-th socket goes to the processor k + 1 places behind the counter.
pub give_all-turn :
    (sockets : List ℕ) (counter k socket : ℕ)
    → counter < 3
    → get_elem? sockets k ≡ some socket
    → get_elem? (give_all threads_amount counter sockets).0 k ≡ some ((counter + k + 1) % 3, socket)
unfolding give_all
give_all-turn [] counter k socket lt e = cc
give_all-turn (s ∷ sockets) counter zero socket lt e =
    let same : s ≡ socket = cc in
    let turn : (counter + 1) % 3 ≡ (counter + 0 + 1) % 3 = omega arith in rw (same, turn) refl
give_all-turn (s ∷ sockets) counter (suc k) socket lt e =
    let turn : ((counter + 1) % 3 + k + 1) % 3 ≡ (counter + suc k + 1) % 3 = omega arith in
    give_all-turn sockets ((counter + 1) % 3) k socket (omega arith) e
    ∙ ap (λ t. some (t, socket)) turn

there : (sockets : List ℕ) (k : ℕ) → k < length sockets → (s : ℕ) × (get_elem? sockets k ≡ some s)
there [] k lt = absurd (omega arith)
there (s ∷ sockets) zero lt = (s, refl)
there (s ∷ sockets) (suc k) lt = there sockets k (omega arith)

-- Of any three connections in a row that are accepted together, each of the three processors is
-- given one.
pub give_all_fair :
    (sockets : List ℕ) (counter k processor : ℕ)
    → counter < 3
    → processor < 3
    → k + 2 < length sockets
    → (j : ℕ) × (s : ℕ) × (j < 3)
      × (get_elem? sockets (k + j) ≡ some s)
      × (get_elem? (give_all threads_amount counter sockets).0 (k + j) ≡ some (processor, s))
give_all_fair sockets counter k processor lt lp room =
    let j = (processor + 5 - (counter + k) % 3) % 3 in
    let (s, e) = there sockets (k + j) (omega arith) in
    let turn : (counter + (k + j) + 1) % 3 ≡ processor = omega arith in
    (
      j,
      s,
      omega arith,
      e,
      give_all-turn sockets counter (k + j) s lt e ∙ ap (λ t. some (t, s)) turn,
    )
