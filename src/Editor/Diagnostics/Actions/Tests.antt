-- ===== src/Editor/Diagnostics/Actions/Tests.antt =====
-- A document with two calls is mended by two actions, the second one first.
use mathlib.Core.List.{mem-cons_self, mem-cons_of_mem}
use code_roam.Prelude.{◌+◌, ◌≡◌, refl, ◌++◌, length, drop, take}
use code_roam.Js.Strings.{Text, codes}
use code_roam.Editor.Diagnostics.{find_console_log_ranges, index_of}
use code_roam.Editor.Diagnostics.Actions.{
  Dispatching, Diagnostic, diagnostic_of, code_roam_diagnostics, apply_action, Fixes, untouched,
  fixed,
}
use code_roam.Editor.Diagnostics.Actions.Fixing.{Splices, Fixes-length}

-- A view that is its document.
abbrev plain : Dispatching
plain = record {
  State = Text;
  document = λ s. s;
  dispatch = λ from to t s. take from s ++ (t ++ drop to s);
}

plain-Splices : Splices plain
plain-Splices = record { splice = λ from to t s low high. refl }

abbrev document : Text
document = codes "console.log(console.log)"

abbrev inner : Diagnostic
inner = diagnostic_of (record { from = 12; to = 23 })

abbrev mended : Text
mended = apply_action plain 12 23 document

mending : Fixes plain document 1 mended
unfolding diagnostic_of code_roam_diagnostics find_console_log_ranges index_of
mending = fixed inner untouched (mem-cons_of_mem _ mem-cons_self)

Fixes-length_example :
    1 + length (code_roam_diagnostics plain mended) ≡ length (code_roam_diagnostics plain document)
Fixes-length_example = Fixes-length plain plain-Splices document mended 1 mending
