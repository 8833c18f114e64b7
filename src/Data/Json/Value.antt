-- ===== src/Data/Json/Value.antt =====
-- What json.loads returns, the values that src/data_processing/json_handler.py works on. A float is
-- given by its text.
use Prim.Native.String.{String}
use py2to3_example_project.Prelude.{◌≡◌, refl, ap, Bool, List, [], ◌∷◌}
use py2to3_example_project.Prelude.Int.{ℤ}

mutual
  pub data Value : Type 0 where
    null : Value
    boolean : Bool → Value
    number : ℤ → Value
    real : String → Value
    str : String → Value
    arr : (items : Items) → Value
    obj : (named : Fields) → Value

  pub data Items : Type 0 where
    nil : Items
    cons : (first : Value) → (others : Items) → Items

  pub data Fields : Type 0 where
    end : Fields
    field : (key : String) → (held : Value) → (others : Fields) → Fields

-- `list(items)` and back.
abbrev pub to_list : Items → List Value
to_list nil = []
to_list (cons v vs) = v ∷ to_list vs

abbrev pub from_list : List Value → Items
from_list [] = nil
from_list (v ∷ vs) = cons v (from_list vs)

-- The dictionary of an object.
abbrev pub to_dict : Fields → List (String × Value)
to_dict end = []
to_dict (field k v fs) = (k, v) ∷ to_dict fs

abbrev pub from_dict : List (String × Value) → Fields
from_dict [] = end
from_dict ((k, v) ∷ d) = field k v (from_dict d)

pub to_list-from_list : (vs : List Value) → to_list (from_list vs) ≡ vs
to_list-from_list [] = refl
to_list-from_list (v ∷ vs) = ap (λ ws. v ∷ ws) (to_list-from_list vs)

pub to_dict-from_dict : (d : List (String × Value)) → to_dict (from_dict d) ≡ d
to_dict-from_dict [] = refl
to_dict-from_dict ((k, v) ∷ d) = ap (λ e. (k, v) ∷ e) (to_dict-from_dict d)
