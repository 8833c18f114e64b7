-- ===== src/Automation/Plugins/Registry.antt =====
-- PluginRegistry. `C` is the type of plugin classes.
use Prim.Native.String.{String}
use py2to3_example_project.Prelude.{
  ℕ, ◌≡◌, refl, ap, ◌∙◌, Bool, true, false, Option, none, some, List, [], ◌∷◌, ◌++◌, arith, length,
  ite, if_pos, if_neg, if◌then◌else◌, sym,
}
use py2to3_example_project.Prelude.Text.{String_discrete}
use py2to3_example_project.Prelude.Dict.{
  lookup, insert, Fresh, Distinct, lookup-insert, Distinct-insert,
}

pub record Registry (C : Type 0) : Type 0 where
  pub plugins : List (String × C)
  pub load_order : List String

-- `name in load_order`
unfoldable pub contains : String → List String → Bool
contains name [] = false
contains name (n ∷ ns) = ite (String_discrete n name) true (contains name ns)

module _ {C : Type 0} where
  unfoldable pub register : Registry C → String → C → Registry C
  unfolding contains
  register r name plugin_class = record {
    plugins = insert String_discrete name plugin_class r.plugins;
    load_order = if contains name r.load_order then r.load_order else r.load_order ++ name ∷ [];
  }

  unfoldable pub get : Registry C → String → Option C
  get r name = lookup String_discrete name r.plugins

  -- The classes behind the names of the load order.
  pub listed : List (String × C) → List String → List (String × C)
  listed plugins [] = []
  listed plugins (n ∷ ns) =
      let rest = listed plugins ns in
      elim (lookup String_discrete n plugins) [ none ↦ rest | some c ↦ (n, c) ∷ rest ]

  unfoldable pub all_plugins : Registry C → List (String × C)
  unfolding listed
  all_plugins r = listed r.plugins r.load_order

  unfoldable pub clear : Registry C → Registry C
  clear r = record { plugins = []; load_order = [] }

  unfoldable pub count : Registry C → ℕ
  count r = length r.plugins

  unfoldable pub register_all : Registry C → List (String × C) → Registry C
  unfolding register
  register_all r [] = r
  register_all r ((n, c) ∷ cs) = register_all (register r n c) cs

  abbrev pub names_of : List (String × C) → List String
  names_of [] = []
  names_of ((n, c) ∷ d) = n ∷ names_of d

  -- The load order is the order of the dictionary, and no name stands twice.
  pub record IsValid (r : Registry C) : Type 0 where
    pub ordered : r.load_order ≡ names_of r.plugins
    pub distinct : Distinct String_discrete r.plugins

  contains-names_of :
      (name : String) (c : C) (d : List (String × C))
      → names_of (insert String_discrete name c d)
        ≡ (if contains name (names_of d) then names_of d else names_of d ++ name ∷ [])
  unfolding contains insert
  contains-names_of name c [] = refl
  contains-names_of name c ((n, x) ∷ d) = ground (arith, contains-names_of name c d)

  pub register-IsValid :
      (r : Registry C) (name : String) (c : C) → IsValid r → IsValid (register r name c)
  unfolding register
  register-IsValid r name c v = record {
    ordered =
        (λ i. if contains name (v.ordered i) then v.ordered i else v.ordered i ++ name ∷ [])
        ∙ sym (contains-names_of name c r.plugins);
    distinct = Distinct-insert String_discrete name c r.plugins v.distinct;
  }

  pub register_all-IsValid :
      (r : Registry C) (cs : List (String × C)) → IsValid r → IsValid (register_all r cs)
  unfolding register_all
  register_all-IsValid r [] v = v
  register_all-IsValid r ((n, c) ∷ cs) v =
      register_all-IsValid (register r n c) cs (register-IsValid r n c v)

  listed-Fresh :
      (n : String) (c : C) (d : List (String × C)) (ns : List String)
      → ((m : String) → contains m ns ≡ true → ¬ (n ≡ m))
      → listed ((n, c) ∷ d) ns ≡ listed d ns
  unfolding listed lookup contains
  listed-Fresh n c d [] h = refl
  listed-Fresh n c d (m ∷ ns) h =
      let rest : listed ((n, c) ∷ d) ns ≡ listed d ns =
        listed-Fresh n c d ns (λ k e. h k (ground arith)) in
      let other : ¬ (n ≡ m) = h m (if_pos (String_discrete m m) refl _ _) in ground arith

  Fresh-contains :
      (n m : String) (d : List (String × C))
      → Fresh String_discrete n d
      → contains m (names_of d) ≡ true
      → ¬ (n ≡ m)
  unfolding contains
  Fresh-contains n m [] f e = absurd (ground arith)
  Fresh-contains n m ((k, x) ∷ d) f e = elim (String_discrete k m) [
    | yes p ↦ λ q. f.0 (p ∙ sym q)
    | no p ↦ Fresh-contains n m d f.1 (sym (if_neg (String_discrete k m) p _ _) ∙ e)
  ]

  listed-names_of : (d : List (String × C)) → Distinct String_discrete d → listed d (names_of d) ≡ d
  unfolding listed lookup
  listed-names_of [] v = refl
  listed-names_of ((n, c) ∷ d) v =
      let rest : listed ((n, c) ∷ d) (names_of d) ≡ d =
        listed-Fresh n c d (names_of d) (λ m e. Fresh-contains n m d v.0 e)
        ∙ listed-names_of d v.1 in
      let found : lookup String_discrete n ((n, c) ∷ d) ≡ some c =
        if_pos (String_discrete n n) refl _ _ in
      ground arith

  pub all_plugins-IsValid : (r : Registry C) → IsValid r → all_plugins r ≡ r.plugins
  unfolding all_plugins
  all_plugins-IsValid r v = ap (listed r.plugins) v.ordered ∙ listed-names_of r.plugins v.distinct

  pub clear-IsValid : (r : Registry C) → IsValid (clear r)
  unfolding clear
  clear-IsValid r = record { ordered = refl; distinct = tt }

  -- The class that was registered last under a name.
  unfoldable pub last_class : String → Option C → List (String × C) → Option C
  last_class name found [] = found
  last_class name found ((n, c) ∷ cs) =
      last_class name (ite (String_discrete n name) (some c) found) cs

  get-register_all :
      (r : Registry C) (name : String) (cs : List (String × C))
      → get (register_all r cs) name ≡ last_class name (get r name) cs
  unfolding get register_all register last_class
  get-register_all r name [] = refl
  get-register_all r name ((n, c) ∷ cs) =
      get-register_all (register r n c) name cs
      ∙ ap (λ o. last_class name o cs) (lookup-insert String_discrete n name c r.plugins)

  -- After a clear and some registrations the list of all plugins is the dictionary itself, name by
  -- name in the order of first registration; its length is the count, and a name gives the class
  -- that was registered under it last.
  pub all_plugins-register_all :
      (r : Registry C) (cs : List (String × C))
      → (all_plugins (register_all (clear r) cs) ≡ (register_all (clear r) cs).plugins)
        × (count (register_all (clear r) cs) ≡ length (all_plugins (register_all (clear r) cs)))
        × ((name : String) → get (register_all (clear r) cs) name ≡ last_class name none cs)
  unfolding count
  all_plugins-register_all r cs =
      let same =
        all_plugins-IsValid (register_all (clear r) cs)
          (register_all-IsValid (clear r) cs (clear-IsValid r)) in
      (
        same,
        ap (λ d. length d) (sym same),
        λ name. unfold clear get lookup in get-register_all (clear r) name cs,
      )
