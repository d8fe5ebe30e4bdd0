-- ===== src/Editor/Diagnostics/Actions.antt =====
-- `codeRoamDiagnostics` of webview/editor/src/editor_diagnostics.ts: the diagnostics of a view, and
-- the action that each of them offers.
pub mod Counting
pub mod Fixing
mod Tests
use code_roam.Prelude.{ℕ, suc, ◌≡◌, List, [], ◌∷◌, map}
use mathlib.Core.List.{Mem}
use code_roam.Js.Strings.{Text, codes}
use code_roam.Editor.Diagnostics.{DiagnosticRange, find_console_log_ranges}

-- CodeMirror's view, which this code only calls: its document, and the dispatch of the change
-- `{ from, to, insert }`.
pub record Dispatching : Type 1 where
  pub State : Type 0
  pub document : State → Text
  pub dispatch : ℕ → ℕ → Text → State → State

pub data Severity : Type 0 where
  warning : Severity

-- A diagnostic, without its action.
pub record Diagnostic : Type 0 where
  pub from : ℕ
  pub to : ℕ
  pub severity : Severity
  pub source : Text
  pub message : Text

diagnostic_of : DiagnosticRange → Diagnostic
diagnostic_of r = record {
  from = r.from;
  to = r.to;
  severity = warning;
  source = codes "CodeRoam M0 fixture";
  message = codes "Touch this diagnostic and apply the mock code action.";
}

abbrev pub replacement : Text
replacement = codes "console.info"

module _ (v : Dispatching) where
  unfoldable pub code_roam_diagnostics : v.State → List Diagnostic
  unfolding diagnostic_of
  code_roam_diagnostics view = map diagnostic_of (find_console_log_ranges (v.document view))

  -- The action `Use console.info` at the range that CodeMirror passes to it.
  unfoldable pub apply_action : ℕ → ℕ → v.State → v.State
  apply_action action_from action_to editor = v.dispatch action_from action_to replacement editor

  -- A user applies the actions of `n` diagnostics, each one shown at the time.
  pub data Fixes (s : v.State) : ℕ → v.State → Type 0 where
    untouched : Fixes s 0 s
    fixed :
        {n : ℕ} {s' : v.State} (d : Diagnostic)
        → Fixes s n s'
        → Mem d (code_roam_diagnostics s')
        → Fixes s (suc n) (apply_action d.from d.to s')
