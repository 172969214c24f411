-- ===== src/Values.antt =====
-- JSON values, as Python's `json` reads them: the candidates of the language model, and the tree of a
-- HOCON configuration. Numbers are numbered so that equal ones agree, and so that 0 and 1 are the
-- numbers that equal False and True.
use etl_agent.Prelude.{ℕ, suc, Bool, true, false, ◌&&◌, Option, none, some, ◌==◌, if◌then◌else◌}
use etl_agent.Prelude.Text.{Text, text_eq}

mutual
  pub data Value : Type 0 where
    null_value : Value
    boolean : Bool → Value
    number_value : ℕ → Value
    text_value : Text → Value
    array : Items → Value
    object : Fields → Value

  pub data Items : Type 0 where
    no_items : Items
    item : Value → Items → Items

  pub data Fields : Type 0 where
    no_fields : Fields
    entry : Text → Value → Fields → Fields

abbrev pub bit : Bool → ℕ
bit true = 1
bit false = 0

-- `fields.get(key)`
unfoldable pub field_at : Text → Fields → Option Value
field_at key no_fields = none
field_at key (entry k v fields) = if text_eq k key then some v else field_at key fields

-- `fields[key] = value` of a key that is there
unfoldable pub set_field : Text → Value → Fields → Fields
set_field key v no_fields = entry key v no_fields
set_field key v (entry k w fields) =
    if text_eq k key then entry k v fields else entry k w (set_field key v fields)

abbrev pub field_count : Fields → ℕ
field_count no_fields = 0
field_count (entry k v fields) = suc (field_count fields)

-- Python's `==`; dictionaries are equal if they have as many keys, and the same value at each
unfoldable mutual
  pub value_eq : Value → Value → Bool
  value_eq null_value null_value = true
  value_eq (boolean a) (boolean b) = bit a == bit b
  value_eq (boolean a) (number_value n) = bit a == n
  value_eq (number_value n) (boolean b) = n == bit b
  value_eq (number_value m) (number_value n) = m == n
  value_eq (text_value s) (text_value t) = text_eq s t
  value_eq (array vs) (array ws) = items_eq vs ws
  value_eq (object f) (object g) = (field_count f == field_count g) && fields_in f g
  value_eq _ _ = false

  pub items_eq : Items → Items → Bool
  items_eq no_items no_items = true
  items_eq (item v vs) (item w ws) = let rest = items_eq vs ws in value_eq v w && rest
  items_eq _ _ = false

  pub fields_in : Fields → Fields → Bool
  fields_in no_fields g = true
  fields_in (entry k v f) g =
      let rest = fields_in f g in
      elim (field_at k g) [ some w ↦ value_eq v w && rest | none ↦ false ]
