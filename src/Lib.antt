-- ===== src/Lib.antt =====
-- CodeRoam shows a terminal and an editor to a Flutter application as web views. This library
-- models the two web views: what they accept from Flutter and send back, the selection by touch
-- that the terminal adds to xterm.js, and the editor's diagnostics and indentation.
--
-- The parts of the program, and the files that model them:
--
-- * `webview/terminal/src/bridge_message.ts`, which `webview/editor/src/bridge_message.ts` repeats,
--   and the function `send` of the two main.ts: the messages of both directions. Bridge has
--   `decodeBridgeMessage` (decode_bridge_message) as a chain of checks whose first failure is its
--   error, and `send` on the list of what was posted. Bridge/Decoding is about the values that are
--   accepted, Bridge/Refusal about the errors, and Bridge/Posting about what is posted.
-- * `webview/terminal/src/terminal_touch_selection.ts`, its functions without state, in Selection:
--   cells, ranges and their order (Selection/Cells), words (Selection/Word), the clipboard's bound
--   (Selection/Clipboard), and the points of touches, handles and the toolbar (Selection/Geometry).
--   Selection/Geometry/Points says which cells a touch can find, Selection/Geometry/Under which one
--   it finds when quotients are exact.
-- * `attachTerminalTouchSelection` of the same file, in Gesture: the closure's variables are the
--   record Controller, and a handler takes a Session (controller, terminal, log of effects) to the
--   one after it. Gesture/Controls has positionHandle, positionToolbar and updateSelectionControls,
--   Gesture/Selecting the functions that the handlers share, Gesture/Handlers the handlers and the
--   callback of the long press, and Gesture/Handlers/Events the steps: an event, or a timer that the
--   browser holds (Gesture/Timers) and runs, in any order. Gesture/Handlers/Phases is the abstract
--   machine of a gesture's phases, Gesture/Handlers/Preserved the predicates that every step keeps,
--   with Gesture/Handlers/Copies and Gesture/Handlers/Anchors as instances, Gesture/Handlers/Shown
--   is about the controls after every step, Gesture/Handlers/LongPress about the selection of a word,
--   Gesture/Handlers/Resigned about a finger that moves too early, Gesture/Handlers/Grasp about one
--   that comes down on a handle, Gesture/Handlers/Dismissed about the buttons, and Gesture/Attach has
--   the elements and the listeners (attach_controls, detach_controls).
-- * `webview/terminal/src/main.ts`, in Terminal: `window.CodeRoamTerminalReceive` (receive) in two
--   stages, what a value asks for (request_of_value) and its performance (perform) or refusal
--   (refuse), where Terminal/Performed says which call of the terminal each command is; the stream
--   events with their ids; all that happens to the page, as a list of events
--   (on_page_events), in Terminal/Numbered; `createTerminalInputStreamId` in
--   Terminal/StreamId; and in Terminal/Lifecycle the resize observer, its animation frame and the
--   `pagehide` handler, as steps in any order that the browser allows, with Terminal/Lifecycle/Hidden
--   about the page and its controller, which `pagehide` disposes (act_on).
-- * `webview/editor/src/main.ts`, in Editor/Page: the update listener (on_update) and
--   `window.CodeRoamEditorReceive` (editor_receive), in the stages of the terminal's.
--   Editor/Page/Receive says which values are commands, Editor/Page/Performed which call of the view
--   each is, Editor/Page/Length is about the lengths
--   reported of a document, Editor/Page/Account about those reported of edits, through everything
--   that happens to the page, and Editor/Page/ReadBack about a document that is read back.
-- * `findConsoleLogRanges` of `webview/editor/src/editor_diagnostics.ts`, in Editor/Diagnostics, and
--   `codeRoamDiagnostics` with the action of a diagnostic, in Editor/Diagnostics/Actions.
-- * The command of the key Enter of `webview/editor/src/editor_indentation.ts`, in
--   Editor/Indentation.
-- * `apps/mobile/assets/terminal/app.js` and `apps/mobile/assets/editor/app.js` are the bundles that
--   the application ships; they hold the same functions next to those libraries.
--
-- How the parts interact: Flutter's values go through Bridge to Terminal, which calls xterm.js;
-- what xterm.js tells its listeners goes back as messages. The controller of Gesture reads the
-- terminal and the layout, calls `select`, `clearSelection` and `focus`, and reports a copy or a
-- paste to the page (Terminal.on_copy, Terminal.on_paste). Terminal/Whole puts the two together: a
-- step of the controller, after which the page reacts to the effects that were logged (react), or
-- something from outside the controls, after which the terminal may call the controller's listeners.
-- Terminal/Whole/Relays compares the controller's log with the page's messages, Terminal/Whole/Ids is
-- about their ids, and Terminal/Whole/PasteBack follows a copied text through Flutter back to the
-- terminal.
--
-- What the model leaves to others: xterm.js and the browser are arguments. Gesture.Terminal holds
-- what the controller reads and calls, and whether the selection listeners run within a call;
-- Terminal.Commands gives for each call the terminal after it and what its listeners are told, and
-- Editor.Page.View, Editor.Diagnostics.Actions.Dispatching and Editor.Indentation.Indenting do so
-- for CodeMirror.
-- What a template makes of a value (Bridge.Shown) is an argument, and may be an error. A timer's
-- number is given with the touch that sets it. The words of
-- `crypto.getRandomValues` are an argument, below 2 ^ 32 where a theorem needs it.
--
-- Values: Js has the values that cross the bridge. A string is the list of its UTF-16 code units
-- (Js/Strings), a number is an integer or some other number. Columns, rows and lengths of cells are
-- integers; the lengths of the screen are exact values of an ordered structure
-- (Selection/Coordinates; Selection/Pixels has whole pixels as an instance, and
-- Selection/Fractions fractions, with exact quotients), so rounding of floating-point numbers is not
-- modelled. A coordinate that `Number.isFinite` may refuse is optional.
--
-- Loops: word_start is recursion on the column, and word_end has the length of the row as its
-- fuel, enough since the loop stops at the end of the row.
-- The digits of a number have the number and one more as their fuel, enough since each quotient is
-- smaller. The search for diagnostics has the length of
-- the document and one more as its fuel, enough since each place is past the one before.
--
-- Not modelled: the look-up of the host elements and the options, themes and extensions that the
-- pages configure xterm.js and CodeMirror with; the Go services and the Dart application.
pub mod Prelude
pub mod Js
pub mod Bridge
pub mod Selection
pub mod Gesture
pub mod Terminal
pub mod Editor
