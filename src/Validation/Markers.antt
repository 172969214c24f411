-- ===== src/Validation/Markers.antt =====
-- The search for the markers of a request: the loop ends, and finds what the request asks for.
use etl_agent.Prelude.{ℕ, ◌≡◌, true, false, drop}
use etl_agent.Prelude.Text.{Text}
use etl_agent.Validation.{starts_with, is_negated}

-- an occurrence of a marker that is not negated
abbrev pub Asks : Text → Text → ℕ → Type 0
Asks marker t i = (starts_with marker (drop i t) ≡ true) × (is_negated t i ≡ false)
