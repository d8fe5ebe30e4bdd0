-- ===== src/Selection.antt =====
-- The functions of webview/terminal/src/terminal_touch_selection.ts that keep no state.
pub mod Cells
pub mod Word
pub mod Clipboard
pub mod Coordinates
pub mod Geometry
pub mod Pixels
pub mod Fractions
mod Tests
