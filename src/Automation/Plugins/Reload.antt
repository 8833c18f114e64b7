-- ===== src/Automation/Plugins/Reload.antt =====
-- What a reload does to a plugin.
use Prim.Native.String.{String}
use py2to3_example_project.Prelude.{ℕ, ◌≡◌, refl, true, false, none, some}
use py2to3_example_project.Prelude.Text.{String_discrete}
use py2to3_example_project.Prelude.Dict.{lookup, insert, lookup-insert_self}
use py2to3_example_project.Prelude.Py.{Exc, ok, raise}
use py2to3_example_project.Automation.Plugins.Registry
use py2to3_example_project.Automation.Plugins.Registry.{register_all}
use py2to3_example_project.Automation.Plugins.Loader.{
  PluginClass, Instance, Loader, Execution, new_instance, merge, activate, deactivate,
}
use py2to3_example_project.Automation.Plugins.Lifecycle.{
  instantiate_plugin, activate_plugin, stop_and_run, reload_plugin,
}

module _ {D V : Type 0} where
  instantiate_plugin-ok :
      (l : Loader D V) (name : String) (c : PluginClass D V)
      → Registry.get l.registry name ≡ some c
      → c.init_error l.defaults ≡ none
      → instantiate_plugin l name none ≡ (
        record l {
          instances = insert String_discrete name (new_instance c l.defaults) l.instances;
        },
        ok (new_instance c l.defaults),
      )
  unfolding instantiate_plugin merge
  instantiate_plugin-ok l name c g i = rw (g, i, instantiate_plugin) refl

  activate_plugin-ok :
      (l : Loader D V) (name : String) (inst : Instance D V) (clock : ℕ)
      → lookup String_discrete name l.instances ≡ some inst
      → inst.plugin_class.activate_error inst.config ≡ none
      → activate_plugin l name clock ≡ (
        record l {
          instances =
              insert String_discrete name
                (record inst { active = true; activated_at = some clock })
                l.instances;
        },
        ok true,
      )
  unfolding activate_plugin activate
  activate_plugin-ok l name inst clock e a = rw (e, a, activate_plugin, activate) refl

  -- A reload whose module runs and whose hooks do not raise leaves an active instance of the newly
  -- registered class, with the loader's own configuration: the configuration that the plugin was
  -- instantiated with is lost.
  pub reload_plugin_lem :
      (l : Loader D V) (name : String) (run : Execution D V) (failed : Exc) (clock : ℕ)
      (c : PluginClass D V)
      → Registry.contains name l.loaded_modules ≡ true
      → run.failure ≡ none
      → Registry.get (register_all l.registry run.registers) name ≡ some c
      → c.init_error l.defaults ≡ none
      → c.activate_error l.defaults ≡ none
      → ((reload_plugin l name run failed clock).1 ≡ ok tt)
        × (lookup String_discrete name (reload_plugin l name run failed clock).0.instances
            ≡ some (record {
              plugin_class = c;
              config = l.defaults;
              active = true;
              activated_at = some clock;
            }))
  unfolding reload_plugin stop_and_run
  reload_plugin_lem l name run failed clock c m f g i a =
      let s = stop_and_run l name run in
      let inst = new_instance c l.defaults in
      let s' : Loader D V = record s { instances = insert String_discrete name inst s.instances } in
      let found = lookup-insert_self String_discrete name inst s.instances in
      let on : Instance D V = record inst { active = true; activated_at = some clock } in
      let made = instantiate_plugin-ok s name c g i in
      rw (m, f, made)
        (rw (made, activate_plugin-ok s' name inst clock found (unfold new_instance in a))
          (refl, unfold new_instance in lookup-insert_self String_discrete name on s'.instances))

  -- When the module's code raises, the reload raises, and the old instance stays, no longer active.
  pub reload_plugin_failed :
      (l : Loader D V) (name message : String) (run : Execution D V) (failed : Exc) (clock : ℕ)
      (inst : Instance D V)
      → Registry.contains name l.loaded_modules ≡ true
      → run.failure ≡ some message
      → lookup String_discrete name l.instances ≡ some inst
      → ((reload_plugin l name run failed clock).1 ≡ raise failed)
        × (lookup String_discrete name (reload_plugin l name run failed clock).0.instances
            ≡ some (record inst { active = false }))
  unfolding reload_plugin stop_and_run deactivate
  reload_plugin_failed l name message run failed clock inst m f e =
      rw (m, f)
        (
          refl,
          rw (e, stop_and_run)
              (lookup-insert_self String_discrete name (record inst { active = false })
                l.instances),
        )
