-- ===== src/Usage/Outcome.antt =====
-- internal/usage/outcome.go: the result that the tool handlers mark. Each update is one atomic step.
mod Tests
use grok_search_mcp.Base.{
  ◌≡◌, refl, inl, inr, Bool, true, false, not, ◌&&◌, ◌||◌, List, [], ◌∷◌, Bool-cases,
}

-- The state of a `ToolOutcomeMarker`.
pub data ToolOutcome : Type 0 where
  tool_outcome_unknown tool_outcome_success tool_outcome_error : ToolOutcome

-- `MarkToolOutcome` where a marker is installed: a success replaces only the unknown outcome.
unfoldable pub mark_tool_outcome : ToolOutcome → Bool → ToolOutcome
mark_tool_outcome tool_outcome_unknown true = tool_outcome_success
mark_tool_outcome tool_outcome_success true = tool_outcome_success
mark_tool_outcome tool_outcome_error true = tool_outcome_error
mark_tool_outcome state false = tool_outcome_error

-- `Outcome`: whether it is a success, and whether it is known.
unfoldable pub outcome : ToolOutcome → Bool × Bool
outcome tool_outcome_unknown = (false, false)
outcome tool_outcome_success = (true, true)
outcome tool_outcome_error = (false, true)

-- The marks of several handlers, in the order of their updates.
unfoldable pub mark_all : ToolOutcome → List Bool → ToolOutcome
mark_all state [] = state
mark_all state (success ∷ marks) = mark_all (mark_tool_outcome state success) marks

unfoldable pub all_true : List Bool → Bool
all_true [] = true
all_true (b ∷ marks) = b && all_true marks

unfoldable pub is_marked : List Bool → Bool
is_marked [] = false
is_marked (b ∷ marks) = true

mark_all-error : (marks : List Bool) → mark_all tool_outcome_error marks ≡ tool_outcome_error
unfolding mark_all mark_tool_outcome
mark_all-error [] = refl
mark_all-error (true ∷ marks) = mark_all-error marks
mark_all-error (false ∷ marks) = mark_all-error marks

mark_all-success :
    (marks : List Bool) → outcome (mark_all tool_outcome_success marks) ≡ (all_true marks, true)
unfolding mark_all mark_tool_outcome outcome all_true
mark_all-success [] = refl
mark_all-success (true ∷ marks) = mark_all-success marks
mark_all-success (false ∷ marks) = rw (mark_all-error marks) refl

-- Whatever handlers mark the outcome of a call, and in whatever order, the outcome is known where one
-- did, and it is a success where one did and none marked a failure.
pub outcome-mark_all :
    (marks : List Bool)
    → outcome (mark_all tool_outcome_unknown marks)
      ≡ (is_marked marks && all_true marks, is_marked marks)
unfolding mark_all mark_tool_outcome outcome is_marked all_true
outcome-mark_all [] = refl
outcome-mark_all (true ∷ marks) = mark_all-success marks
outcome-mark_all (false ∷ marks) = rw (mark_all-error marks) refl
