-- ===== src/Automation/Plugins/Runs.antt =====
-- What the active plugins make of data, and what an activation of all changes.
use Prim.Native.String.{String}
use py2to3_example_project.Prelude.{
  ℕ, ◌≤◌, ◌≡◌, refl, ap, ◌∙◌, sym, ◌⊎◌, inl, inr, true, Option, none, some, List, [], ◌∷◌, arith,
  length, if◌then◌else◌, Bool-cases, if_pos, if_neg,
}
use py2to3_example_project.Prelude.Text.{String_discrete}
use py2to3_example_project.Prelude.Dict.{
  lookup, insert, lookup-insert, lookup-insert_ne, Fresh, Distinct, lookup-Fresh,
}
use py2to3_example_project.Prelude.Py.{Exc}
use py2to3_example_project.Automation.Plugins.Loader.{Instance, Loader, result_of, activate}
use py2to3_example_project.Automation.Plugins.Lifecycle.{
  try_activate, activates, activate_each, activate_all, active_of, get_active_plugins, process_each,
  process_data,
}

module _ {D V : Type 0} where
  -- The instance, if it is active.
  abbrev pub if_active : Option (Instance D V) → Option (Instance D V)
  if_active none = none
  if_active (some inst) = if inst.active then some inst else none

  Fresh-active_of :
      (n : String) (d : List (String × Instance D V))
      → Fresh String_discrete n d
      → Fresh String_discrete n (active_of d)
  unfolding active_of
  Fresh-active_of n [] f = tt
  Fresh-active_of n ((m, inst) ∷ d) f = elim (Bool-cases inst.active) [
    | inl on ↦ rw on (f.0, Fresh-active_of n d f.1)
    | inr off ↦ rw off (Fresh-active_of n d f.1)
  ]

  Distinct-active_of :
      (d : List (String × Instance D V))
      → Distinct String_discrete d
      → Distinct String_discrete (active_of d)
  unfolding active_of
  Distinct-active_of [] v = tt
  Distinct-active_of ((m, inst) ∷ d) v = elim (Bool-cases inst.active) [
    | inl on ↦ rw on (Fresh-active_of m d v.0, Distinct-active_of d v.1)
    | inr off ↦ rw off (Distinct-active_of d v.1)
  ]

  lookup-active_of :
      (n : String) (d : List (String × Instance D V))
      → Distinct String_discrete d
      → lookup String_discrete n (active_of d) ≡ if_active (lookup String_discrete n d)
  unfolding active_of lookup
  lookup-active_of n [] v = refl
  lookup-active_of n ((m, inst) ∷ d) v = elim (String_discrete m n) [
    | yes p ↦
        let gone : lookup String_discrete n (active_of d) ≡ none =
          lookup-Fresh String_discrete n (active_of d) (rw p at (Fresh-active_of m d v.0)) in
        ground arith
    | no p ↦ ground (arith, lookup-active_of n d v.1)
  ]

  -- What a pass over some plugins leaves under a name.
  abbrev pub outcome : D → Option (Instance D V) → Option (Option V) → Option (Option V)
  outcome points none before = before
  outcome points (some inst) before =
      some (result_of (inst.plugin_class.process inst.config points))

  lookup-process_each :
      (n : String) (d : List (String × Instance D V)) (points : D)
      (results : List (String × Option V))
      → Distinct String_discrete d
      → lookup String_discrete n (process_each d points results)
        ≡ outcome points (lookup String_discrete n d) (lookup String_discrete n results)
  unfolding process_each lookup
  lookup-process_each n [] points results v = refl
  lookup-process_each n ((m, inst) ∷ d) points results v =
      let r = result_of (inst.plugin_class.process inst.config points) in
      let ih = lookup-process_each n d points (insert String_discrete m r results) v.1 in
      elim (String_discrete m n) [
        | yes p ↦
            let gone : lookup String_discrete n d ≡ none =
              lookup-Fresh String_discrete n d (rw p at (v.0)) in
            ih
            ∙ (λ i. outcome points (gone i) (lookup-insert String_discrete m n r results i))
            ∙ if_pos (String_discrete m n) p _ _
            ∙ ap (λ o. outcome points o (lookup String_discrete n results))
                (sym (if_pos (String_discrete m n) p (some inst) (lookup String_discrete n d)))
        | no p ↦
            ih
            ∙ ap (λ o. outcome points (lookup String_discrete n d) o)
                (lookup-insert_ne String_discrete m n r results p)
            ∙ ap (λ o. outcome points o (lookup String_discrete n results))
                (sym (if_neg (String_discrete m n) p (some inst) (lookup String_discrete n d)))
      ]

  -- A pass of data through instances with distinct names: an active plugin has its value, or None
  -- when it raises, and the plugins that are not active have no entry.
  pub lookup-process_data :
      (l : Loader D V) (points : D) (n : String)
      → Distinct String_discrete l.instances
      → lookup String_discrete n (process_data l points)
        ≡ outcome points (if_active (lookup String_discrete n l.instances)) none
  unfolding process_data get_active_plugins lookup
  lookup-process_data l points n v =
      lookup-process_each n (active_of l.instances) points [] (Distinct-active_of l.instances v)
      ∙ ap (λ o. outcome points o (lookup String_discrete n [])) (lookup-active_of n l.instances v)

  abbrev pub tried : (clock : ℕ) → Option (Instance D V) → Option (Instance D V)
  tried clock none = none
  tried clock (some inst) = some (try_activate inst clock)

  lookup-activate_each :
      (n : String) (d : List (String × Instance D V)) (clock : ℕ)
      → lookup String_discrete n (activate_each d clock).0
        ≡ tried clock (lookup String_discrete n d)
  unfolding activate_each lookup
  lookup-activate_each n [] clock = refl
  lookup-activate_each n ((m, inst) ∷ d) clock = elim (String_discrete m n) [
    | yes p ↦
        if_pos (String_discrete m n) p _ _
        ∙ ap (tried clock)
            (sym (if_pos (String_discrete m n) p (some inst) (lookup String_discrete n d)))
    | no p ↦
        if_neg (String_discrete m n) p _ _
        ∙ lookup-activate_each n d clock
        ∙ ap (tried clock)
            (sym (if_neg (String_discrete m n) p (some inst) (lookup String_discrete n d)))
  ]

  activates-active :
      (inst : Instance D V) (clock : ℕ)
      → (activates inst clock ≡ 0)
        ⊎ ((activates inst clock ≡ 1) × ((try_activate inst clock).active ≡ true))
  unfolding activate
  activates-active inst clock = by_error (inst.plugin_class.activate_error inst.config) refl
    where
      by_error :
          (o : Option Exc)
          → inst.plugin_class.activate_error inst.config ≡ o
          → (activates inst clock ≡ 0)
            ⊎ ((activates inst clock ≡ 1) × ((try_activate inst clock).active ≡ true))
      by_error none e = inr (rw (e, activates, activate) refl, rw (e, try_activate, activate) refl)
      by_error (some x) e = inl (rw (e, activates, activate) refl)

  activate_each-le :
      (d : List (String × Instance D V)) (clock : ℕ)
      → (activate_each d clock).1 ≤ length (active_of (activate_each d clock).0)
  unfolding activate_each active_of
  activate_each-le [] clock = omega arith
  activate_each-le ((m, inst) ∷ d) clock = elim (activates-active inst clock) [
    | inl off ↦ ground (arith, activate_each-le d clock)
    | inr on ↦ ground (arith, activate_each-le d clock)
  ]

  -- An activation of all plugins tries each instance once: those whose hook does not raise are
  -- active afterwards, the others are as they were, and the number that is returned is at most that
  -- of the active plugins.
  pub activate_all_lem :
      (l : Loader D V) (clock : ℕ)
      → ((n : String)
          → lookup String_discrete n (activate_all l clock).0.instances
            ≡ tried clock (lookup String_discrete n l.instances))
        × ((activate_all l clock).1 ≤ length (get_active_plugins (activate_all l clock).0))
  unfolding activate_all get_active_plugins
  activate_all_lem l clock =
      ((λ n. lookup-activate_each n l.instances clock), activate_each-le l.instances clock)
