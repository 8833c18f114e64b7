-- ===== src/Reporting/Tests.antt =====
-- Instances for src/reporting/web_dashboard.py.
use py2to3_example_project.Prelude.{ℕ, ◌+◌, ◌≤◌, ◌≡◌, ◌⊎◌, some, List, [], ◌∷◌, length, take}
use py2to3_example_project.Prelude.Queue.{last_items}
use py2to3_example_project.Reporting.History
use py2to3_example_project.Reporting.Alarms.{
  Server, new_server, start, add_all, max_alarms, kept_alarms,
}

-- The server after three alarms.
abbrev server : Server ℕ (List ℕ)
server = add_all (start (new_server [])) (5 ∷ 6 ∷ 7 ∷ [])

add_all-start_example :
    (length server.alarm_history ≤ max_alarms)
    × (server.alarm_history ≡ last_items (length server.alarm_history) (5 ∷ 6 ∷ 7 ∷ []))
    × ((server.alarm_history ≡ 5 ∷ 6 ∷ 7 ∷ []) ⊎ (kept_alarms ≤ length server.alarm_history))
    × (server.shown_alarms ≡ some (take (max_alarms + 1) (5 ∷ 6 ∷ 7 ∷ [])))
add_all-start_example = History.add_all-start [] (5 ∷ 6 ∷ 7 ∷ [])
