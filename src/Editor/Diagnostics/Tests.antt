-- ===== src/Editor/Diagnostics/Tests.antt =====
-- A document with two calls, and the theorem on its ranges.
use code_roam.Prelude.{◌≡◌, refl, [], ◌∷◌}
use code_roam.Js.Strings.{Text, codes}
use code_roam.Editor.Diagnostics.{find_console_log_ranges, index_of}
use code_roam.Editor.Diagnostics.Marks.{Marks, find-Marks}

abbrev document : Text
document = codes "a;console.log(console.log)"

two_calls :
    find_console_log_ranges document
    ≡ record { from = 2; to = 13 } ∷ record { from = 14; to = 25 } ∷ []
unfolding find_console_log_ranges index_of
two_calls = refl

find-Marks_example : Marks document 0 (find_console_log_ranges document)
find-Marks_example = find-Marks document
