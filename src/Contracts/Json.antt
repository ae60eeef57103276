-- ===== src/Contracts/Json.antt =====
-- The JSON values that payloads and envelopes are made of.
use mirageby_ai.Common.{ℕ, String, Bool, List, [], ◌∷◌, Option, none, some}

mutual
  pub data Json : Type 0 where
    null : Json
    flag : Bool → Json
    num : ℕ → Json
    ratio : ℕ → ℕ → Json
    text : String → Json
    arr : Items → Json
    obj : Fields → Json

  pub data Items : Type 0 where
    nil : Items
    cons : Json → Items → Items

  pub data Fields : Type 0 where
    end : Fields
    entry : String → Json → Fields → Fields

abbrev fields : List (String × Json) → Fields
fields [] = end
fields ((k, v) ∷ d) = entry k v (fields d)

-- A dict literal
abbrev pub dict : List (String × Json) → Json
dict d = obj (fields d)

abbrev items : List String → Items
items [] = nil
items (s ∷ rest) = cons (text s) (items rest)

-- A list of texts
abbrev pub texts : List String → Json
texts l = arr (items l)

-- A value that may be None
abbrev pub optional : Option String → Json
optional none = null
optional (some s) = text s
