-- ===== src/Automation/Plugins/Loader.antt =====
-- PluginBase and PluginLoader. A class is described by what its hooks do; a hook that raises does so
-- before it changes the instance. Prints are left out.
use Prim.Native.String.{String}
use py2to3_example_project.Prelude.{
  ℕ, suc, Bool, true, false, Option, none, some, List, [], ◌∷◌, ◌++◌, if◌then◌else◌,
}
use py2to3_example_project.Prelude.Text.{String_discrete}
use py2to3_example_project.Prelude.Dict.{lookup, insert, update}
use py2to3_example_project.Prelude.Py.{Exc, Result, ok, raise}
use py2to3_example_project.Automation.Plugins.Registry
use py2to3_example_project.Automation.Plugins.Registry.{Registry, register_all, all_plugins, count}

pub data Config : Type 0 where
  settings : List (String × String) → Config

-- The attribute `process` of a class: it is missing, it is None or not callable, it is a function
-- or method, or it is a callable object, which has no `__name__`.
pub data Hook : Type 0 where
  missing not_callable function callable_object : Hook

-- `D` is the type of data points, `V` of what a plugin makes of them.
pub record PluginClass (D V : Type 0) : Type 0 where
  pub process_hook : Hook
  pub init_error : Config → Option Exc
  pub activate_error : Config → Option Exc
  pub process : Config → D → Result V

pub record Instance (D V : Type 0) : Type 0 where
  pub plugin_class : PluginClass D V
  pub config : Config
  pub active : Bool
  pub activated_at : Option ℕ

-- What running a module's code does: the classes that it registers, and the message of the
-- exception that ends it.
pub record Execution (D V : Type 0) : Type 0 where
  pub registers : List (String × PluginClass D V)
  pub failure : Option String

pub record Loader (D V : Type 0) : Type 0 where
  pub registry : Registry (PluginClass D V)
  pub defaults : Config
  pub loaded_modules : List String
  pub instances : List (String × Instance D V)
  pub load_errors : List (String × String)

pub record LoaderStatus : Type 0 where
  pub loaded : ℕ
  pub registered : ℕ
  pub instantiated : ℕ
  pub active_count : ℕ
  pub errors : List (String × String)

-- `merged = dict(self.config); merged.update(plugin_config)`
abbrev override : Config → Config → Config
override (settings d) (settings more) = settings (update String_discrete d more)

unfoldable pub merge : Config → Option Config → Config
merge defaults plugin_config = elim plugin_config [
  | none ↦ defaults
  | some more ↦ override defaults more
]

-- `plugin_config` None stands for no key.
unfoldable pub config_for : String → List (String × Config) → Option Config
config_for name cfgs = lookup String_discrete name cfgs

-- A plugin that raises has the result None.
abbrev pub result_of : {V : Type 0} → Result V → Option V
result_of (ok v) = some v
result_of (raise e) = none

module _ {D V : Type 0} where
  unfoldable pub new_instance : PluginClass D V → Config → Instance D V
  new_instance plugin_class config = record {
    plugin_class = plugin_class;
    config = config;
    active = false;
    activated_at = none;
  }

  unfoldable pub activate : Instance D V → (clock : ℕ) → Result (Instance D V)
  activate inst clock = elim (inst.plugin_class.activate_error inst.config) [
    | none ↦ ok (record inst { active = true; activated_at = some clock })
    | some e ↦ raise e
  ]

  unfoldable pub deactivate : Instance D V → Instance D V
  deactivate inst = record inst { active = false }

  unfoldable pub new_loader : Registry (PluginClass D V) → Config → Loader D V
  new_loader registry defaults = record {
    registry = registry;
    defaults = defaults;
    loaded_modules = [];
    instances = [];
    load_errors = [];
  }

  -- Loading and reloading differ only in that a module is remembered when it is loaded first. The
  -- result says whether the module was returned.
  unfoldable pub load_module : Loader D V → String → Execution D V → Loader D V × Bool
  load_module l module_name run =
      let l' : Loader D V = record l { registry = register_all l.registry run.registers } in
      elim run.failure [
        | none ↦ (
          record l' {
            loaded_modules =
                if Registry.contains module_name l.loaded_modules
                then l.loaded_modules
                else l.loaded_modules ++ module_name ∷ [];
          },
          true,
        )
        | some message ↦ (
          record l' { load_errors = insert String_discrete module_name message l.load_errors },
          false,
        )
      ]

  -- `load_all` on the modules that `discover` found.
  unfoldable pub load_all : Loader D V → List (String × Execution D V) → Loader D V × ℕ
  unfolding load_module
  load_all l [] = (l, 0)
  load_all l ((name, run) ∷ found) =
      let (l', got) = load_module l name run in
      let (l'', n) = load_all l' found in (l'', if got then suc n else n)
