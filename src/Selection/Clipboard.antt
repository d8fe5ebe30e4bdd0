-- ===== src/Selection/Clipboard.antt =====
-- `boundedTerminalClipboardText`: the text that may pass through the clipboard.
use code_roam.Prelude.{ℕ, ◌&&◌, Option, none, some, leb, ltb, length, if◌then◌else◌}
use code_roam.Js.{Value, string}
use code_roam.Js.Strings.{Text}

abbrev pub maximum_terminal_clipboard_code_units : ℕ
maximum_terminal_clipboard_code_units = 262_144

unfoldable pub bounded_terminal_clipboard_text : Value → Option Text
bounded_terminal_clipboard_text (string value) =
    if ltb 0 (length value) && leb (length value) maximum_terminal_clipboard_code_units
    then some value
    else none
bounded_terminal_clipboard_text _ = none
