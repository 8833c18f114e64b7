-- ===== src/Reporting/Alarms.antt =====
-- DashboardServer of src/reporting/web_dashboard.py: its alarm history and sensor data, and the
-- objects that the pages of DashboardHandler show since start.
use py2to3_example_project.Prelude.{
  ℕ, Bool, true, false, Option, none, some, List, [], ◌∷◌, ◌++◌, ltb, if◌then◌else◌, length,
}
use py2to3_example_project.Prelude.Queue.{last_items}

abbrev pub max_alarms : ℕ
max_alarms = 1000

abbrev pub kept_alarms : ℕ
kept_alarms = 500

-- `shown_alarms` and `shown_data` are the objects of the handler's class; `shared` says whether its
-- alarms are still the list of the server.
pub record Server (A D : Type 0) : Type 0 where
  pub sensor_data : D
  pub alarm_history : List A
  pub running : Bool
  pub shown_data : Option D
  pub shown_alarms : Option (List A)
  pub shared : Bool

module _ {A D : Type 0} where
  unfoldable pub new_server : (empty : D) → Server A D
  new_server empty = record {
    sensor_data = empty;
    alarm_history = [];
    running = false;
    shown_data = none;
    shown_alarms = none;
    shared = false;
  }

  unfoldable pub update_sensor_data : Server A D → D → Server A D
  update_sensor_data s readings = record s { sensor_data = readings }

  -- The port is taken to be free.
  unfoldable pub start : Server A D → Server A D
  start s = record s {
    running = true;
    shown_data = some s.sensor_data;
    shown_alarms = some s.alarm_history;
    shared = true;
  }

  unfoldable pub stop : Server A D → Server A D
  stop s = record s { running = false }

  -- `append` changes the list, which the handler may share; the slice is a new list.
  unfoldable pub add_alarm : Server A D → A → Server A D
  add_alarm s a =
      let longer = s.alarm_history ++ a ∷ [] in
      let shown = if s.shared then some longer else s.shown_alarms in
      if ltb max_alarms (length longer)
      then record s {
        alarm_history = last_items kept_alarms longer;
        shown_alarms = shown;
        shared = false;
      }
      else record s { alarm_history = longer; shown_alarms = shown }

  unfoldable pub add_all : Server A D → List A → Server A D
  unfolding add_alarm
  add_all s [] = s
  add_all s (a ∷ alarms) = add_all (add_alarm s a) alarms
