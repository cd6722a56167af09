-- ===== src/Processor/Routes.antt =====
-- How `processor::handle` (processor.cpp) takes a path apart.
pub mod Paths
use highload_cup.Common.{ℕ, ◌+◌, ◌-◌, [], Option, none, some, Bytes, length, slice, drop}
use highload_cup.Util.Numbers.{find_from}

-- What a path names: `/entity/id` or `/entity/id/func`.
pub record Route : Type 0 where
  pub entity : Bytes
  pub id : Bytes
  pub func : Bytes

-- `path_ptr->find(slash, from)`.
abbrev pub find_slash : Bytes → ℕ → Option ℕ
find_slash path from = find_from (drop from path) b'/' from

-- The part of a path between two slashes, or behind the last one.
abbrev pub between : Bytes → ℕ → ℕ → Bytes
between path i j = slice path (i + 1) (j - i - 1)

abbrev pub route_within : Bytes → ℕ → ℕ → Route
route_within path pos_1 pos_2 = elim (find_slash path (pos_2 + 1)) [
  | some pos_3 ↦ record {
    entity = between path pos_1 pos_2;
    id = between path pos_2 pos_3;
    func = between path pos_3 (length path);
  }
  | none ↦ record {
    entity = between path pos_1 pos_2;
    id = between path pos_2 (length path);
    func = [];
  }
]

unfoldable pub route : Bytes → Option Route
unfolding find_from
route path = elim (find_slash path 0) [
  | none ↦ none
  | some pos_1 ↦ elim (find_slash path (pos_1 + 1)) [
    | none ↦ none
    | some pos_2 ↦ some (route_within path pos_1 pos_2)
  ]
]
