-- ===== src/Usage/Outcome/Tests.antt =====
-- The outcome marker on concrete inputs.
use grok_search_mcp.Base.{◌≡◌, true, false, ◌&&◌, List, [], ◌∷◌, Bool}
use grok_search_mcp.Usage.Outcome.{
  tool_outcome_unknown, outcome, mark_all, all_true, is_marked, outcome-mark_all,
}

abbrev marks : List Bool
marks = true ∷ false ∷ true ∷ []

outcome-mark_all_example :
    outcome (mark_all tool_outcome_unknown marks)
    ≡ (is_marked marks && all_true marks, is_marked marks)
outcome-mark_all_example = outcome-mark_all marks
