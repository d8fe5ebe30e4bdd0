-- ===== src/Editor/Diagnostics.antt =====
-- `findConsoleLogRanges` of webview/editor/src/editor_diagnostics.ts: the places of `console.log`
-- in a document.
pub mod Marks
pub mod Actions
mod Tests
use code_roam.Prelude.{
  ℕ, zero, suc, ◌+◌, ◌==◌, Bool, true, false, ◌&&◌, Option, none, some, List, [], ◌∷◌, length, drop,
  if◌then◌else◌, ◌>>=◌,
}
use code_roam.Js.Strings.{Text, codes}

abbrev pub diagnostic_target : Text
diagnostic_target = codes "console.log"

pub record DiagnosticRange : Type 0 where
  pub from : ℕ
  pub to : ℕ

-- `indexOf` of the language: the first place at which the text goes on with the searched one.
abbrev pub starts_with : Text → Text → Bool
starts_with [] t = true
starts_with (c ∷ searched) [] = false
starts_with (c ∷ searched) (d ∷ t) = c == d && starts_with searched t

abbrev pub position : Text → Text → Option ℕ
position searched [] = if starts_with searched [] then some 0 else none
position searched (c ∷ t) =
    let later = position searched t in
    if starts_with searched (c ∷ t) then some 0 else later >>= λ n. some (suc n)

unfoldable pub index_of : Text → Text → ℕ → Option ℕ
index_of document searched from = do n ← position searched (drop from document); some (from + n)

-- The loop, at most `fuel` times.
ranges_from : ℕ → Text → Option ℕ → List DiagnosticRange
unfolding index_of
ranges_from zero document found = []
ranges_from (suc fuel) document none = []
ranges_from (suc fuel) document (some from) =
    let to = from + length diagnostic_target in
    record { from = from; to = to }
    ∷ ranges_from fuel document (index_of document diagnostic_target to)

unfoldable pub find_console_log_ranges : Text → List DiagnosticRange
unfolding ranges_from
find_console_log_ranges document =
    ranges_from (length document + 1) document (index_of document diagnostic_target 0)
