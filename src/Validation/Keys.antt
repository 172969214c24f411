-- ===== src/Validation/Keys.antt =====
-- `compile_hocon` against a description of the keys of a configuration.
use etl_agent.Validation.Plan.{compile_hocon, Checkers}
use etl_agent.Validation.{walk_items, walk_fields, is_forbidden, walk}
use etl_agent.Values.{
  no_fields, no_items, null_value, boolean, number_value, text_value, text_value, number_value,
  boolean, item, array, entry, Items, object, Fields, Value,
}
use mathlib.Core.Bool.{true≢false}
use etl_agent.Prelude.{
  ◌||◌, Bool, ◌≡◌, refl, sym, ap, ◌∙◌, ◌↔◌, inl, inr, true, false, some, arith, Bool-cases,
  Option-cases,
}
use etl_agent.Prelude.Result.{ok}
use etl_agent.Prelude.Text.{Text}

-- a key of a value, at any depth
mutual
  pub data HasKey (key : Text) : Value → Type 0 where
    in_object : {fields : Fields} → AmongFields key fields → HasKey key (object fields)
    in_array : {items : Items} → AmongItems key items → HasKey key (array items)

  pub data AmongFields (key : Text) : Fields → Type 0 where
    its_name : {k : Text} {v : Value} {rest : Fields} → k ≡ key → AmongFields key (entry k v rest)
    its_value :
        {k : Text} {v : Value} {rest : Fields} → HasKey key v → AmongFields key (entry k v rest)
    a_later_field :
        {k : Text} {v : Value} {rest : Fields}
        → AmongFields key rest
        → AmongFields key (entry k v rest)

  pub data AmongItems (key : Text) : Items → Type 0 where
    its_first : {v : Value} {items : Items} → HasKey key v → AmongItems key (item v items)
    a_later_item :
        {v : Value} {items : Items} → AmongItems key items → AmongItems key (item v items)

either_of : (a b c : Bool) → (a || b || c) ≡ (a || (b || c))
either_of a b c = ground arith

first_of : (b : Bool) {a : Bool} → a ≡ true → (a || b) ≡ true
first_of b h = ground arith

second_of_two : (a : Bool) {b : Bool} → b ≡ true → (a || b) ≡ true
second_of_two a h = ground arith

second_of : (a c : Bool) {b : Bool} → b ≡ true → (a || (b || c)) ≡ true
second_of a c h = ground arith

third_of : (a b : Bool) {c : Bool} → c ≡ true → (a || (b || c)) ≡ true
third_of a b h = ground arith

last_of : {a b c : Bool} → a ≡ false → b ≡ false → (a || (b || c)) ≡ true → c ≡ true
last_of na nb h = ground arith

walk_entry :
    (k : Text) (v : Value) (fields : Fields)
    → walk_fields (entry k v fields) ≡ (is_forbidden k || (walk v || walk_fields fields))
unfolding walk
walk_entry k v fields = either_of (is_forbidden k) (walk v) (walk_fields fields)

walk_item : (v : Value) (items : Items) → walk_items (item v items) ≡ (walk v || walk_items items)
unfolding walk
walk_item v items = refl

-- a forbidden key that is there is found
mutual
  unfolding walk

  walk-found : {key : Text} {v : Value} → HasKey key v → is_forbidden key ≡ true → walk v ≡ true
  walk-found (in_object there) bad = walk_fields-found there bad
  walk-found (in_array there) bad = walk_items-found there bad

  walk_fields-found :
      {key : Text} {fields : Fields}
      → AmongFields key fields
      → is_forbidden key ≡ true
      → walk_fields fields ≡ true
  walk_fields-found {fields = entry k v fields} (its_name e) bad =
      walk_entry k v fields ∙ first_of _ (ap is_forbidden e ∙ bad)
  walk_fields-found {fields = entry k v fields} (its_value there) bad =
      walk_entry k v fields ∙ second_of (is_forbidden k) _ (walk-found there bad)
  walk_fields-found {fields = entry k v fields} (a_later_field there) bad =
      walk_entry k v fields ∙ third_of (is_forbidden k) (walk v) (walk_fields-found there bad)

  walk_items-found :
      {key : Text} {items : Items}
      → AmongItems key items
      → is_forbidden key ≡ true
      → walk_items items ≡ true
  walk_items-found {items = item v items} (its_first there) bad =
      walk_item v items ∙ first_of _ (walk-found there bad)
  walk_items-found {items = item v items} (a_later_item there) bad =
      walk_item v items ∙ second_of_two (walk v) (walk_items-found there bad)

-- what is found is a forbidden key
mutual
  unfolding walk

  found-walk : (v : Value) → walk v ≡ true → (key : Text) × (is_forbidden key ≡ true) × HasKey key v
  found-walk (object fields) h =
      let (k, bad, there) = found-walk_fields fields h in (k, bad, in_object there)
  found-walk (array items) h =
      let (k, bad, there) = found-walk_items items h in (k, bad, in_array there)
  found-walk null_value h = absurd (ground arith)
  found-walk (boolean b) h = absurd (ground arith)
  found-walk (number_value n) h = absurd (ground arith)
  found-walk (text_value t) h = absurd (ground arith)

  found-walk_fields :
      (fields : Fields)
      → walk_fields fields ≡ true
      → (key : Text) × (is_forbidden key ≡ true) × AmongFields key fields
  found-walk_fields no_fields h = absurd (ground arith)
  found-walk_fields (entry k v fields) h = elim (Bool-cases (is_forbidden k)) [
    | inl bad ↦ (k, bad, its_name refl)
    | inr fine ↦ elim (Bool-cases (walk v)) [
      | inl inside ↦ let (j, bad, there) = found-walk v inside in (j, bad, its_value there)
      | inr none_inside ↦
          let rest = last_of fine none_inside (sym (walk_entry k v fields) ∙ h) in
          let (j, bad, there) = found-walk_fields fields rest in (j, bad, a_later_field there)
    ]
  ]

  found-walk_items :
      (items : Items)
      → walk_items items ≡ true
      → (key : Text) × (is_forbidden key ≡ true) × AmongItems key items
  found-walk_items no_items h = absurd (ground arith)
  found-walk_items (item v items) h = elim (Bool-cases (walk v)) [
    | inl inside ↦ let (j, bad, there) = found-walk v inside in (j, bad, its_first there)
    | inr none_inside ↦
        let (j, bad, there) = found-walk_items items (ground arith) in (j, bad, a_later_item there)
  ]

allowed :
    (key : Text) (config : Value)
    → HasKey key config
    → walk config ≡ false
    → is_forbidden key ≡ false
allowed key config there clean = elim (Bool-cases (is_forbidden key)) [
  | inl bad ↦ absurd (true≢false (sym (walk-found there bad) ∙ clean))
  | inr fine ↦ fine
]

module _ {F : Type 0} (checkers : Checkers F) where
  accepted :
      (hocon : Text) (config : Value)
      → compile_hocon checkers hocon ≡ ok config
      → (checkers.parse_hocon hocon ≡ some config)
        × ((key : Text) → HasKey key config → is_forbidden key ≡ false)
  unfolding compile_hocon
  accepted hocon config h = elim (Option-cases (checkers.parse_hocon hocon)) [
    | inl missing ↦ absurd (ground arith)
    | inr (c, parsed) ↦ elim (Bool-cases (walk c)) [
      | inl bad ↦ absurd (ground arith)
      | inr fine ↦
          let same : c ≡ config = ground arith in
          let clean : walk config ≡ false = ap walk (sym same) ∙ fine in
          (parsed ∙ ap some same, λ key there. allowed key config there clean)
    ]
  ]

  cleared :
      (hocon : Text) (config : Value)
      → checkers.parse_hocon hocon ≡ some config
      → ((key : Text) → HasKey key config → is_forbidden key ≡ false)
      → compile_hocon checkers hocon ≡ ok config
  unfolding compile_hocon
  cleared hocon config parsed clean = elim (Bool-cases (walk config)) [
    | inl bad ↦
        let (key, forbidden, there) = found-walk config bad in
        absurd (true≢false (sym forbidden ∙ clean key there))
    | inr fine ↦ rw (compile_hocon, parsed, fine)
  ]

  -- A text compiles to a configuration exactly when it parses to it and none of its keys, at any depth
  -- and in any case of its letters, is a forbidden one.
  pub compile_hocon_accepts :
      (hocon : Text) (config : Value)
      → (compile_hocon checkers hocon ≡ ok config) ↔ (
          (checkers.parse_hocon hocon ≡ some config)
          × ((key : Text) → HasKey key config → is_forbidden key ≡ false))
  compile_hocon_accepts hocon config = (accepted hocon config, λ h. cleared hocon config h.0 h.1)
