-- ===== src/Prelude/Dict.antt =====
-- Python's `dict` with string keys as an association list, and JSON values as far as the program
-- looks into them.
use etl_agent.Prelude.Tests.{if◌then◌else◌}
use Prim.Native.String.{String}
use mathlib.Core.Path.{◌≡◌, refl}
use mathlib.Core.Option.{Option, none, some}
use mathlib.Core.List.{List, [], ◌∷◌}
use native.Mathlib.Omega.{arith}
use text.Mathlib.Text.{◌==◌ as str_eq}
use text.Mathlib.TextEquality.{eq_iff}
use etl_agent.Prelude.Text.{Text}

abbrev pub Dict {ℓ} : Type ℓ → Type ℓ
Dict V = List (String × V)

-- `opaque` stands for a number, an array or an object that the program passes on unread
pub data Json : Type 0 where
  null : Json
  string : Text → Json
  opaque : Text → Json

abbrev pub optional_text : Option Text → Json
optional_text none = null
optional_text (some t) = string t

module _ {ℓ} {V : Type ℓ} where
  -- `d.get(key)`
  unfoldable pub get : String → Dict V → Option V
  get k [] = none
  get k ((j, v) ∷ d) = if str_eq j k then some v else get k d

  -- `d[key] = value`
  unfoldable pub put : String → V → Dict V → Dict V
  put k v [] = (k, v) ∷ []
  put k v ((j, w) ∷ d) = if str_eq j k then (k, v) ∷ d else (j, w) ∷ put k v d

  -- `{**d, **e}` and `d.update(e)`
  unfoldable pub merge : Dict V → Dict V → Dict V
  merge d [] = d
  merge d ((k, v) ∷ e) = merge (put k v d) e

  -- `{k: d[k] for k in keys if k in d}`
  unfoldable pub select : List String → Dict V → Dict V
  unfolding get
  select [] d = []
  select (k ∷ ks) d =
      let rest = select ks d in elim (get k d) [ some v ↦ (k, v) ∷ rest | none ↦ rest ]

  pub get-put :
      (k j : String) (v : V) (d : Dict V)
      → get j (put k v d) ≡ (if str_eq k j then some v else get j d)
  unfolding get put
  get-put k j v [] = refl
  get-put k j v ((i, w) ∷ d) = ground (arith, eq_iff k j, eq_iff i k, eq_iff i j, get-put k j v d)
