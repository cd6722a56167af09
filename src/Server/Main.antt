-- ===== src/Server/Main.antt =====
-- `main` and `heating` (highloadcup.cpp). The files of a folder, and what the system calls of the
-- server return, are arguments; the lines of the log are left out.
use highload_cup.Common.{
  ℕ, zero, suc, ◌+◌, ◌-◌, List, [], ◌∷◌, Option, ltb, if◌then◌else◌, Bytes, codes,
}
use highload_cup.Store.HashMap.{HashMap}
use highload_cup.Store.Libs.{Libs, Run, done, ◌>>=◌}
use highload_cup.Store.State.{Base}
use highload_cup.Store.Insert.{users_size, visits_size, locations_size}
use highload_cup.Store.Read.{get_object}
use highload_cup.Server.{Poll, Served, waiting}
use highload_cup.Server.Start.{System, run_server}
use highload_cup.Server.Loader.{load}

module _ {d : HashMap} where
  -- One round of the loop of `heating`; only the base is kept.
  unfoldable pub heat : Base d → ℕ → Base d
  unfolding get_object
  heat b count =
      let b1 = (get_object b (codes "visits") count).0 in
      let b2 = if ltb count (users_size b1) then (get_object b1 (codes "users") count).0 else b1 in
      if ltb count (locations_size b2) then (get_object b2 (codes "locations") count).0 else b2

  unfoldable pub heating_loop : ℕ → ℕ → Base d → Base d
  unfolding heat
  heating_loop zero count b = b
  heating_loop (suc rounds) count b = heating_loop rounds (count + 1) (heat b count)

  unfoldable pub heating : Base d → Base d
  unfolding heating_loop
  heating b = heating_loop (visits_size b - 1) 1 b

  -- The exit code, the base and what the server has done. An exception of `load` ends the process;
  -- one of the server ends in the exit code 0.
  unfoldable pub main :
      Libs
      → Base d
      → (Bytes → List (Bytes × Option Bytes))
      → (Bytes → System)
      → List Poll
      → List Bytes
      → Run (ℕ × Base d × Served)
  unfolding load run_server
  main libs bs files system polls (name ∷ port ∷ path_data ∷ []) =
      load libs bs (files path_data) >>= λ b. done (0, b, run_server (system port) polls)
  main libs bs files system polls _ = done (1, bs, waiting [])
