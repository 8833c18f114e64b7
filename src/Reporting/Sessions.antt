-- ===== src/Reporting/Sessions.antt =====
-- SessionManager of src/reporting/web_dashboard.py, with _ensure_session of DashboardHandler. An
-- identifier `SID%d_%d` is given by its two numbers; a clock reading stands for each call of the
-- clock.
use py2to3_example_project.Prelude.{
  ℕ, ◌+◌, ◌≡◌, ◌⊎◌, refl, Bool, true, false, Option, none, some, List, [], ◌∷◌, ltb, if◌then◌else◌,
  length, inl, inr,
}
use py2to3_example_project.Prelude.Text.{codes}
use py2to3_example_project.Prelude.Str.{Str, Str_discrete}
use py2to3_example_project.Prelude.Dict.{insert, lookup, erase, lookup-insert_self}

pub record Session : Type 0 where
  pub username : Str
  pub created : ℕ
  pub last_access : ℕ

pub record SessionManager : Type 0 where
  pub sessions : List (Str × Session)
  pub next_id : ℕ

abbrev pub timeout : ℕ
timeout = 3600

unfoldable pub new_manager : SessionManager
new_manager = record { sessions = []; next_id = 1 }

-- The three readings are for the identifier, `created` and `last_access`.
unfoldable pub create_session :
    SessionManager → (username : Str) → (t0 t1 t2 : ℕ) → SessionManager × Str
create_session m username t0 t1 t2 =
    let sid : Str = m.next_id ∷ t0 ∷ [] in
    (
      record m {
        sessions =
            insert Str_discrete sid (record { username = username; created = t1; last_access = t2 })
              m.sessions;
        next_id = m.next_id + 1;
      },
      sid,
    )

abbrev pub is_stale : (now : ℕ) → Session → Bool
is_stale now s = ltb (s.last_access + timeout) now

-- The readings are for the test and for the new `last_access`.
unfoldable pub get_session :
    SessionManager → (sid : Str) → (t0 t1 : ℕ) → SessionManager × Option Session
get_session m sid t0 t1 = elim (lookup Str_discrete sid m.sessions) [
  | none ↦ (m, none)
  | some s ↦
      if is_stale t0 s then (record m { sessions = erase Str_discrete sid m.sessions }, none) else (
        record m { sessions = insert Str_discrete sid (record s { last_access = t1 }) m.sessions },
        some (record s { last_access = t1 }),
      )
]

unfoldable pub stale_sids : (now : ℕ) → List (Str × Session) → List Str
stale_sids now [] = []
stale_sids now ((sid, s) ∷ rest) =
    let others = stale_sids now rest in if is_stale now s then sid ∷ others else others

unfoldable pub delete_each : List Str → List (Str × Session) → List (Str × Session)
delete_each [] d = d
delete_each (sid ∷ sids) d = delete_each sids (erase Str_discrete sid d)

unfoldable pub expire_stale : SessionManager → (now : ℕ) → SessionManager
unfolding stale_sids delete_each
expire_stale m now = record m { sessions = delete_each (stale_sids now m.sessions) m.sessions }

abbrev pub active_count : SessionManager → ℕ
active_count m = length m.sessions

-- `cookie` is what parse_cookie finds in the header; an empty text counts as none.
abbrev pub found_or_new :
    (t1 t2 t3 t4 : ℕ) → (sid : Str) → SessionManager × Option Session → SessionManager × Str
found_or_new t1 t2 t3 t4 sid (m, some s) = (m, sid)
found_or_new t1 t2 t3 t4 sid (m, none) = create_session m (codes "anonymous") t2 t3 t4

unfoldable pub ensure_session :
    SessionManager → (cookie : Option Str) → (t0 t1 t2 t3 t4 : ℕ) → SessionManager × Str
unfolding get_session create_session
ensure_session m none t0 t1 t2 t3 t4 = create_session m (codes "anonymous") t2 t3 t4
ensure_session m (some []) t0 t1 t2 t3 t4 = create_session m (codes "anonymous") t2 t3 t4
ensure_session m (some (c ∷ sid)) t0 t1 t2 t3 t4 =
    found_or_new t1 t2 t3 t4 (c ∷ sid) (get_session m (c ∷ sid) t0 t1)

-- The session under an identifier, last used at one of two times.
abbrev pub IsLive : (t t' : ℕ) → SessionManager × Str → Type 0
IsLive t t' (m, sid) =
    (s : Session) × (lookup Str_discrete sid m.sessions ≡ some s)
    × ((s.last_access ≡ t) ⊎ (s.last_access ≡ t'))

create_session-IsLive :
    (t : ℕ) (m : SessionManager) (username : Str) (t0 t1 t2 : ℕ)
    → IsLive t t2 (create_session m username t0 t1 t2)
unfolding create_session
create_session-IsLive t m username t0 t1 t2 = (
  record { username = username; created = t1; last_access = t2 },
  lookup-insert_self Str_discrete (m.next_id ∷ t0 ∷ [])
      (record { username = username; created = t1; last_access = t2 }) m.sessions,
  inr refl,
)

-- Whatever cookie a request has, of no session, of a stale one or of a live one, the session that it
-- gets stands in the manager under its identifier, last used now.
pub ensure_session-IsLive :
    (m : SessionManager) (cookie : Option Str) (t0 t1 t2 t3 t4 : ℕ)
    → IsLive t1 t4 (ensure_session m cookie t0 t1 t2 t3 t4)
unfolding ensure_session
ensure_session-IsLive m none t0 t1 t2 t3 t4 =
    create_session-IsLive t1 m (codes "anonymous") t2 t3 t4
ensure_session-IsLive m (some []) t0 t1 t2 t3 t4 =
    create_session-IsLive t1 m (codes "anonymous") t2 t3 t4
ensure_session-IsLive m (some (c ∷ sid)) t0 t1 t2 t3 t4 =
    by_entry (lookup Str_discrete (c ∷ sid) m.sessions) refl
  where
    by_test :
        (s : Session) (stale : Bool)
        → lookup Str_discrete (c ∷ sid) m.sessions ≡ some s
        → is_stale t0 s ≡ stale
        → IsLive t1 t4 (ensure_session m (some (c ∷ sid)) t0 t1 t2 t3 t4)
    by_test s true p q =
        rw (ensure_session, get_session, p, q)
          (create_session-IsLive t1
            (record m { sessions = erase Str_discrete (c ∷ sid) m.sessions }) (codes "anonymous") t2
            t3 t4)
    by_test s false p q =
        rw (ensure_session, get_session, p, q)
          (
            record s { last_access = t1 },
            lookup-insert_self Str_discrete (c ∷ sid) (record s { last_access = t1 }) m.sessions,
            inl refl,
          )

    by_entry :
        (found : Option Session)
        → lookup Str_discrete (c ∷ sid) m.sessions ≡ found
        → IsLive t1 t4 (ensure_session m (some (c ∷ sid)) t0 t1 t2 t3 t4)
    by_entry none p =
        rw (ensure_session, get_session, p)
          (create_session-IsLive t1 m (codes "anonymous") t2 t3 t4)
    by_entry (some s) p = by_test s (is_stale t0 s) p refl
