-- ===== src/Json.antt =====
-- JSON values as Python reads them: the bodies of the requests and responses. A number is a natural
-- number; a repeated name in an object is its last one.
use pynchronize.Prelude.{ℕ, Bool, Option, none, some, String, string_key, ◌==◌, if◌then◌else◌}

mutual
  pub data Json : Type 0 where
    null : Json
    boolean : Bool → Json
    number : ℕ → Json
    text : String → Json
    array : Elements → Json
    object : Fields → Json

  pub data Elements : Type 0 where
    no_elements : Elements
    element : Json → Elements → Elements

  pub data Fields : Type 0 where
    no_fields : Fields
    field : String → Json → Fields → Fields

abbrev pub or_else {ℓ} : {A : Type ℓ} → Option A → Option A → Option A
or_else none o = o
or_else (some a) o = some a

-- the value of a name
unfoldable pub find : String → Fields → Option Json
find name no_fields = none
find name (field n v fs) = or_else (find name fs) (if n == name then some v else none)
