-- ===== src/Automation/Plugins/Lifecycle.antt =====
-- PluginLoader: validation, instances, activation, the processing of data, and reloads.
use Prim.Native.String.{String}
use py2to3_example_project.Prelude.{
  ℕ, suc, ◌+◌, Bool, true, false, Option, none, some, List, [], ◌∷◌, length, if◌then◌else◌,
}
use py2to3_example_project.Prelude.Text.{String_discrete}
use py2to3_example_project.Prelude.Dict.{lookup, insert}
use py2to3_example_project.Prelude.Py.{
  Exc, Result, ok, raise, ◌>>=◌, platform_error, attribute_error,
}
use py2to3_example_project.Automation.Plugins.Registry
use py2to3_example_project.Automation.Plugins.Registry.{Registry, register_all, all_plugins, count}
use py2to3_example_project.Automation.Plugins.Loader.{
  Config, PluginClass, Instance, Execution, Loader, LoaderStatus, merge, config_for, result_of,
  new_instance, activate, deactivate, missing, not_callable, function, callable_object,
}

module _ {D V : Type 0} where
  -- A missing hook is an error in the list; what is no function has no `__name__` or no
  -- `__defaults__`, and the inspection raises.
  unfoldable pub validate_plugin_class : PluginClass D V → Result Bool
  validate_plugin_class c = elim c.process_hook [
    | missing ↦ ok false
    | not_callable ↦ raise attribute_error
    | function ↦ ok true
    | callable_object ↦ raise attribute_error
  ]

  unfoldable pub validate_each : List (String × PluginClass D V) → Result ℕ
  unfolding validate_plugin_class
  validate_each [] = ok 0
  validate_each ((name, c) ∷ cs) = do
    valid ← validate_plugin_class c
    n ← validate_each cs
    ok (if valid then suc n else n)

  unfoldable pub validate_all : Loader D V → Result ℕ
  unfolding validate_each
  validate_all l = validate_each (all_plugins l.registry)

  unfoldable pub instantiate_plugin :
      Loader D V → String → Option Config → Loader D V × Result (Instance D V)
  unfolding new_instance merge
  instantiate_plugin l name plugin_config = elim (Registry.get l.registry name) [
    | none ↦ (l, raise platform_error)
    | some c ↦
        let merged = merge l.defaults plugin_config in
        elim (c.init_error merged) [
          | some e ↦ (l, raise platform_error)
          | none ↦ (
            record l {
              instances = insert String_discrete name (new_instance c merged) l.instances;
            },
            ok (new_instance c merged),
          )
        ]
  ]

  -- A failed instantiation is skipped.
  abbrev counted : Result (Instance D V) → ℕ → ℕ
  counted (ok inst) n = suc n
  counted (raise e) n = n

  unfoldable pub instantiate_each :
      Loader D V → List (String × PluginClass D V) → List (String × Config) → Loader D V × Result ℕ
  unfolding instantiate_plugin validate_plugin_class config_for
  instantiate_each l [] cfgs = (l, ok 0)
  instantiate_each l ((name, c) ∷ cs) cfgs =
      let (l', inst) = instantiate_plugin l name (config_for name cfgs) in
      let rest = instantiate_each l cs cfgs in
      let (l'', n) = instantiate_each l' cs cfgs in
      elim (validate_plugin_class c) [
        | raise e ↦ (l, raise e)
        | ok false ↦ rest
        | ok true ↦ (l'', n >>= λ k. ok (counted inst k))
      ]

  unfoldable pub instantiate_all : Loader D V → List (String × Config) → Loader D V × Result ℕ
  unfolding instantiate_each
  instantiate_all l cfgs = instantiate_each l (all_plugins l.registry) cfgs

  unfoldable pub activate_plugin : Loader D V → String → (clock : ℕ) → Loader D V × Result Bool
  unfolding activate
  activate_plugin l name clock = elim (lookup String_discrete name l.instances) [
    | none ↦ (l, raise platform_error)
    | some inst ↦ elim (activate inst clock) [
      | raise e ↦ (l, raise e)
      | ok inst' ↦ (record l { instances = insert String_discrete name inst' l.instances }, ok true)
    ]
  ]

  -- The instance after a tried activation, and whether it worked.
  abbrev pub try_activate : Instance D V → (clock : ℕ) → Instance D V
  try_activate inst clock = elim (activate inst clock) [ ok inst' ↦ inst' | raise e ↦ inst ]

  abbrev pub activates : Instance D V → (clock : ℕ) → ℕ
  activates inst clock = elim (activate inst clock) [ ok inst' ↦ 1 | raise e ↦ 0 ]

  unfoldable pub activate_each :
      List (String × Instance D V) → (clock : ℕ) → List (String × Instance D V) × ℕ
  unfolding activate
  activate_each [] clock = ([], 0)
  activate_each ((name, inst) ∷ rest) clock =
      let (rest', n) = activate_each rest clock in
      ((name, try_activate inst clock) ∷ rest', activates inst clock + n)

  unfoldable pub activate_all : Loader D V → (clock : ℕ) → Loader D V × ℕ
  unfolding activate_each
  activate_all l clock =
      let (instances, n) = activate_each l.instances clock in
      (record l { instances = instances }, n)

  unfoldable pub active_of : List (String × Instance D V) → List (String × Instance D V)
  active_of [] = []
  active_of ((name, inst) ∷ rest) =
      let others = active_of rest in if inst.active then (name, inst) ∷ others else others

  unfoldable pub get_active_plugins : Loader D V → List (String × Instance D V)
  unfolding active_of
  get_active_plugins l = active_of l.instances

  unfoldable pub process_each :
      List (String × Instance D V) → D → List (String × Option V) → List (String × Option V)
  process_each [] points results = results
  process_each ((name, inst) ∷ rest) points results = process_each rest points (
      insert String_discrete name (result_of (inst.plugin_class.process inst.config points))
        results)

  unfoldable pub process_data : Loader D V → D → List (String × Option V)
  unfolding process_each get_active_plugins
  process_data l points = process_each (get_active_plugins l) points []

  -- An existing instance is deactivated, and the module's code runs again.
  unfoldable pub stop_and_run : Loader D V → String → Execution D V → Loader D V
  unfolding deactivate
  stop_and_run l name run = record l {
    instances = elim (lookup String_discrete name l.instances) [
      | none ↦ l.instances
      | some inst ↦ insert String_discrete name (deactivate inst) l.instances
    ];
    registry = register_all l.registry run.registers;
  }

  -- `run` is what reloading the module's code does; the module is known by the plugin's name.
  unfoldable pub reload_plugin :
      Loader D V → String → Execution D V → Exc → (clock : ℕ) → Loader D V × Result (Unit {0})
  unfolding stop_and_run instantiate_plugin activate_plugin
  reload_plugin l name run failed clock =
      if Registry.contains name l.loaded_modules
      then (let stopped = stop_and_run l name run in
          elim run.failure [
            | some message ↦ (stopped, raise failed)
            | none ↦
                let (l', inst) = instantiate_plugin stopped name none in
                elim inst [
                  | raise e ↦ (l', raise e)
                  | ok i ↦ let (l'', r) = activate_plugin l' name clock in (l'', r >>= λ b. ok tt)
                ]
          ])
      else (l, raise platform_error)

  unfoldable pub get_status : Loader D V → LoaderStatus
  unfolding get_active_plugins
  get_status l = record {
    loaded = length l.loaded_modules;
    registered = count l.registry;
    instantiated = length l.instances;
    active_count = length (get_active_plugins l);
    errors = l.load_errors;
  }
