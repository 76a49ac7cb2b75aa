-- ===== src/Provider/Json/Value.antt =====
-- encoding/json: the values that `Unmarshal` gives. An object is its fields, each key once;
-- an array is its items.
use gcisco_exporter.Base.{String, Bool, Option, none, some, List, [], ◌∷◌, if◌then◌else◌, ◌==◌}

mutual
  pub data Json (F : Type 0) : Type 0 where
    null : Json F
    boolean : Bool → Json F
    number : F → Json F
    text : String → Json F
    array : Items F → Json F
    object : Fields F → Json F

  pub data Items (F : Type 0) : Type 0 where
    end_of_array : Items F
    item : Json F → Items F → Items F

  pub data Fields (F : Type 0) : Type 0 where
    end_of_object : Fields F
    field : String → Json F → Fields F → Fields F

module _ {F : Type 0} where
  unfoldable pub items : Items F → List (Json F)
  items end_of_array = []
  items (item v rest) = v ∷ items rest

  -- `data[key]`
  unfoldable pub find : String → Fields F → Option (Json F)
  find key end_of_object = none
  find key (field name v rest) = if name == key then some v else find key rest

  -- the elements that are objects: a loop over rows skips the others
  unfoldable pub objects : List (Json F) → List (Fields F)
  objects [] = []
  objects (object fields ∷ rest) = fields ∷ objects rest
  objects (v ∷ rest) = objects rest
