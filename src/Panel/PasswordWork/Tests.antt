-- ===== src/Panel/PasswordWork/Tests.antt =====
-- The bound on password hashing on a concrete history.
use grok_search_mcp.Base.{◌≡◌, ◌≤◌, refl, List, [], ◌∷◌}
use grok_search_mcp.Panel.PasswordWork.{
  idle, WorkCall, acquires, releases, run_work, work_step, try_acquire_password_work, release_work,
  open_permits, run_work_bounded,
}

abbrev history : List WorkCall
history = acquires ∷ acquires ∷ acquires ∷ releases 0 ∷ releases 0 ∷ acquires ∷ []

history_current : (run_work (idle 2) history).current ≡ 2
unfolding run_work work_step try_acquire_password_work release_work
history_current = refl

run_work_bounded_example :
    ((run_work (idle 2) history).current ≡ open_permits (run_work (idle 2) history).permits)
    × (open_permits (run_work (idle 2) history).permits ≤ 2)
run_work_bounded_example = run_work_bounded 2 history
