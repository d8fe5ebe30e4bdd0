-- ===== src/Editor/Indentation.antt =====
-- webview/editor/src/editor_indentation.ts: what Enter does to the indentation.
pub mod Bounded
mod Tests
use code_roam.Prelude.{
  ℕ, ◌+◌, ltb, Bool, true, false, not, ◌&&◌, ◌||◌, Option, none, some, List, any, if◌then◌else◌,
}

-- A range of the selection.
pub record SelectedRange : Type 0 where
  pub empty : Bool
  pub head : ℕ

-- CodeMirror's view and its language support, which this code only calls. `suggested` is
-- `getIndentation` in a context that breaks the line at the position, and `line_indent` is that
-- context's indentation of the line that starts at the second position. A command also tells
-- whether it handled the key.
pub record Indenting : Type 1 where
  pub State : Type 0
  pub ranges : State → List SelectedRange
  pub line_from : State → ℕ → ℕ
  pub suggested : State → ℕ → Option ℕ
  pub line_indent : State → ℕ → ℕ → ℕ
  pub unit : State → ℕ
  pub insert_newline_and_indent : State → State × Bool
  pub insert_newline_keep_indent : State → State × Bool

module _ (v : Indenting) where
  -- The test of `some`, from the suggestion on.
  grows_too_far : Option ℕ → ℕ → v.State → Bool
  grows_too_far none head s = false
  grows_too_far (some suggestion) head s =
      ltb (v.line_indent s head (v.line_from s head) + v.unit s) suggestion

  keeps_at : v.State → SelectedRange → Bool
  unfolding grows_too_far
  keeps_at s range =
      if not range.empty then false else grows_too_far (v.suggested s range.head) range.head s

  pub should_keep_current_line_indentation : v.State → Bool
  unfolding keeps_at
  should_keep_current_line_indentation s = any (keeps_at s) (v.ranges s)

  -- The command of the key.
  pub bounded_insert_newline_and_indent : v.State → v.State × Bool
  unfolding should_keep_current_line_indentation
  bounded_insert_newline_and_indent s =
      if should_keep_current_line_indentation s
      then v.insert_newline_keep_indent s
      else v.insert_newline_and_indent s
