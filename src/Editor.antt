-- ===== src/Editor.antt =====
-- The editor's web view, webview/editor/src.
pub mod Diagnostics
pub mod Page
pub mod Indentation
