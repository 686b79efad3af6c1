-- ===== src/Provenance/Values.antt =====
-- Values of Python that JSON rows hold, and `dict.get`.
use nodelm.Base.{ℕ, Bool, Text, ◌==◌, if◌then◌else◌, Option, none, some}

-- `negative n` is the integer -(n + 1). A float is the text that `json.dumps` writes of it.
mutual
  pub data Value : Type 0 where
    null : Value
    boolean : Bool → Value
    integer negative : ℕ → Value
    floating string : Text → Value
    array : Items → Value
    object : Fields → Value

  pub data Items : Type 0 where
    nil : Items
    cons : Value → Items → Items

  pub data Fields : Type 0 where
    end : Fields
    field : Text → Value → Fields → Fields

-- `row.get(key)`, for a dictionary with its keys in the order of insertion.
unfoldable pub get_value : Text → Fields → Option Value
unfolding ◌==◌
get_value key end = none
get_value key (field k value fields) =
    let rest = get_value key fields in if k == key then some value else rest
