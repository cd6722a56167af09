-- ===== src/Store/State/Ages.antt =====
-- The table of ages holds what would be computed for each age.
use highload_cup.Common.{
  arith, ℕ, zero, suc, ◌+◌, ◌<◌, ◌≡◌, refl, ap, ◌∙◌, some, ltb, get_elem?, Bool-cases, inl, inr,
}
use highload_cup.Store.Libs.{Libs, Tm}
use highload_cup.Store.State.{
  generate_timestamp_from_age, ages_from, initialize_ages, age_at, get_timestamp_from_age,
  get_timestamp_to_age,
}

get_elem?-ages_from :
    (libs : Libs) (tm : Tm) (n age i : ℕ)
    → i < n
    → get_elem? (ages_from libs tm n age) i ≡ some (generate_timestamp_from_age libs tm (age + i))
unfolding ages_from
get_elem?-ages_from libs tm zero age i h = absurd (omega arith)
get_elem?-ages_from libs tm (suc n) age zero h =
    ap (λ x. some (generate_timestamp_from_age libs tm x)) (omega arith)
get_elem?-ages_from libs tm (suc n) age (suc i) h =
    get_elem?-ages_from libs tm n (age + 1) i (omega arith)
    ∙ ap (λ x. some (generate_timestamp_from_age libs tm x)) (omega arith)

age_at-initialize_ages :
    (libs : Libs) (tm : Tm) (age : ℕ)
    → age_at libs tm (initialize_ages libs tm) age ≡ generate_timestamp_from_age libs tm age
unfolding initialize_ages
age_at-initialize_ages libs tm age = elim (Bool-cases (ltb 99 age)) [
  | inl e ↦ rw (age_at, e) refl
  | inr e ↦
      rw (age_at, e, get_elem?-ages_from libs tm 100 0 age (ground arith))
        (ap (λ x. generate_timestamp_from_age libs tm x) (omega arith))
]

-- For every age, in the table or behind it, the two limits are those that
-- `generate_timestamp_from_age` computes.
pub timestamps_of_age :
    (libs : Libs) (tm : Tm) (age : ℕ)
    → (get_timestamp_from_age libs tm (initialize_ages libs tm) age
        ≡ (generate_timestamp_from_age libs tm age).0)
      × (get_timestamp_to_age libs tm (initialize_ages libs tm) age
          ≡ (generate_timestamp_from_age libs tm age).1)
unfolding get_timestamp_from_age get_timestamp_to_age
timestamps_of_age libs tm age = (
  ap (λ r. r.0) (age_at-initialize_ages libs tm age),
  ap (λ r. r.1) (age_at-initialize_ages libs tm age),
)
