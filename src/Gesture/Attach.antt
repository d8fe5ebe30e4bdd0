-- ===== src/Gesture/Attach.antt =====
-- What `attachTerminalTouchSelection` makes and listens to, and what `dispose` takes away again:
-- the elements of the selection's controls and the listeners.
pub mod Undone
mod Tests
use code_roam.Prelude.{
  ℕ, ◌-◌, ◌==◌, leb, Bool, true, false, not, ◌&&◌, List, [], ◌∷◌, ◌++◌, Option, none, some, map,
  if◌then◌else◌, ◌>>=◌,
}
use code_roam.Js.Strings.{Text, codes, text_eq}
use code_roam.Selection.Geometry.{Edge}

pub record Attribute : Type 0 where
  pub name : Text
  pub value : Text

-- An element without children, as it is made.
pub record Element : Type 0 where
  pub tag : Text
  pub attributes : List Attribute
  pub hidden : Bool
  pub text_content : Text

pub record Toolbar : Type 0 where
  pub element : Element
  pub buttons : List Element

-- `toUpperCase` of an ASCII character
to_upper_case : ℕ → ℕ
to_upper_case c = if leb 97 c && leb c 122 then c - 32 else c

-- `${action[0].toUpperCase()}${action.slice(1)}`
capitalised : Text → Text
unfolding to_upper_case
capitalised [] = []
capitalised (c ∷ rest) = to_upper_case c ∷ rest

-- A button of the toolbar; the text of the last is the sign ×.
action_button : Text → Element
unfolding capitalised
action_button action =
    let closes = text_eq action (codes "close") in
    record {
      tag = codes "button";
      attributes =
          record { name = codes "type"; value = codes "button" }
          ∷ record { name = codes "data-action"; value = action }
          ∷ (if closes
              then record { name = codes "aria-label"; value = codes "Close selection" } ∷ []
              else []);
      hidden = false;
      text_content = if closes then 0xd7 ∷ [] else capitalised action;
    }

pub create_selection_toolbar : Toolbar
unfolding action_button
create_selection_toolbar = record {
  element = record {
    tag = codes "div";
    attributes =
        record { name = codes "class"; value = codes "terminal-touch-selection-toolbar" }
        ∷ record { name = codes "role"; value = codes "toolbar" }
        ∷ record { name = codes "aria-label"; value = codes "Terminal selection" }
        ∷ [];
    hidden = true;
    text_content = [];
  };
  buttons = map action_button (codes "copy" ∷ codes "paste" ∷ codes "close" ∷ []);
}

abbrev edge_name : Edge → Text
edge_name Edge.start = codes "start"
edge_name Edge.end = codes "end"

pub create_selection_handle : Edge → Element
create_selection_handle edge = record {
  tag = codes "button";
  attributes =
      record { name = codes "type"; value = codes "button" }
      ∷ record { name = codes "class"; value = codes "terminal-touch-selection-handle" }
      ∷ record { name = codes "data-edge"; value = edge_name edge }
      ∷ record { name = codes "aria-label"; value = codes "Move selection " ++ edge_name edge }
      ∷ [];
  hidden = true;
  text_content = [];
}

pub record Controls : Type 0 where
  pub toolbar : Toolbar
  pub copy_button : Element
  pub paste_button : Element
  pub close_button : Element
  pub start_handle : Element
  pub end_handle : Element

-- `toolbar.querySelector(selector)` is the browser's.
module _ (query_selector : Toolbar → Text → Option Element) where
  -- `requiredControl(toolbar, selector)`; `none` is the error that it throws.
  required_control : Toolbar → Text → Option Element
  required_control toolbar selector = query_selector toolbar selector

  unfoldable pub make_controls : Option Controls
  unfolding required_control create_selection_toolbar create_selection_handle
  make_controls = do
    let toolbar = create_selection_toolbar
    copy_button ← required_control toolbar (codes "[data-action=\"copy\"]")
    paste_button ← required_control toolbar (codes "[data-action=\"paste\"]")
    close_button ← required_control toolbar (codes "[data-action=\"close\"]")
    some (record {
      toolbar = toolbar;
      copy_button = copy_button;
      paste_button = paste_button;
      close_button = close_button;
      start_handle = create_selection_handle Edge.start;
      end_handle = create_selection_handle Edge.end;
    })

-- What is listened to, and the functions that listen.
pub data Source : Type 0 where
  host copy_button paste_button close_button : Source
  terminal_selection terminal_scroll terminal_resize : Source

pub data Callback : Type 0 where
  update_selection_controls handle_touch_start handle_touch_move handle_touch_end : Callback
  handle_context_menu handle_copy handle_paste handle_close : Callback

pub record Listener : Type 0 where
  pub source : Source
  pub event : Text
  pub callback : Callback
  pub capture : Bool

-- The children of the host: the three of the controller, and others.
pub data Node : Type 0 where
  toolbar_node start_node end_node : Node
  other_node : ℕ → Node

-- The listeners, the latest first, and the children of the host, in order.
pub record Surroundings : Type 0 where
  pub listeners : List Listener
  pub children : List Node

abbrev on : Source → Text → Callback → Bool → Listener
on source event callback capture = record {
  source = source;
  event = event;
  callback = callback;
  capture = capture;
}

-- `host.append(toolbar, startHandle, endHandle)` and the listeners, in the order of the code.
unfoldable pub attach_controls : Surroundings → Surroundings
attach_controls w = record {
  children = w.children ++ (toolbar_node ∷ start_node ∷ end_node ∷ []);
  listeners =
      on close_button (codes "click") handle_close false
      ∷ on paste_button (codes "click") handle_paste false
      ∷ on copy_button (codes "click") handle_copy false
      ∷ on host (codes "contextmenu") handle_context_menu true
      ∷ on host (codes "touchcancel") handle_touch_end true
      ∷ on host (codes "touchend") handle_touch_end true
      ∷ on host (codes "touchmove") handle_touch_move true
      ∷ on host (codes "touchstart") handle_touch_start true
      ∷ on terminal_resize [] update_selection_controls false
      ∷ on terminal_scroll [] update_selection_controls false
      ∷ on terminal_selection [] update_selection_controls false
      ∷ w.listeners;
}

abbrev source_code : Source → ℕ
source_code host = 0
source_code copy_button = 1
source_code paste_button = 2
source_code close_button = 3
source_code terminal_selection = 4
source_code terminal_scroll = 5
source_code terminal_resize = 6

abbrev callback_code : Callback → ℕ
callback_code update_selection_controls = 0
callback_code handle_touch_start = 1
callback_code handle_touch_move = 2
callback_code handle_touch_end = 3
callback_code handle_context_menu = 4
callback_code handle_copy = 5
callback_code handle_paste = 6
callback_code handle_close = 7

abbrev eqb_Bool : Bool → Bool → Bool
eqb_Bool true b = b
eqb_Bool false b = not b

abbrev eqb_Listener : Listener → Listener → Bool
eqb_Listener a b =
    source_code a.source == source_code b.source
    && text_eq a.event b.event
    && callback_code a.callback == callback_code b.callback
    && eqb_Bool a.capture b.capture

-- A listener is removed by what it listens to, its function and its `capture`, as the browser and
-- the terminal do.
without_listener : Listener → List Listener → List Listener
without_listener l [] = []
without_listener l (x ∷ xs) = if eqb_Listener x l then xs else x ∷ without_listener l xs

abbrev pub eqb_Node : Node → Node → Bool
eqb_Node toolbar_node toolbar_node = true
eqb_Node start_node start_node = true
eqb_Node end_node end_node = true
eqb_Node (other_node n) (other_node m) = n == m
eqb_Node _ _ = false

-- `node.remove()`
without_node : Node → List Node → List Node
without_node n [] = []
without_node n (x ∷ xs) = if eqb_Node x n then xs else x ∷ without_node n xs

abbrev remove_listener : Listener → Surroundings → Surroundings
remove_listener l w = record w { listeners = without_listener l w.listeners }

abbrev remove_node : Node → Surroundings → Surroundings
remove_node n w = record w { children = without_node n w.children }

-- The removals of `dispose()`, in the order of the code.
unfoldable pub detach_controls : Surroundings → Surroundings
unfolding without_listener without_node
detach_controls w =
    let w = remove_listener (on terminal_selection [] update_selection_controls false) w in
    let w = remove_listener (on terminal_scroll [] update_selection_controls false) w in
    let w = remove_listener (on terminal_resize [] update_selection_controls false) w in
    let w = remove_listener (on host (codes "touchstart") handle_touch_start true) w in
    let w = remove_listener (on host (codes "touchmove") handle_touch_move true) w in
    let w = remove_listener (on host (codes "touchend") handle_touch_end true) w in
    let w = remove_listener (on host (codes "touchcancel") handle_touch_end true) w in
    let w = remove_listener (on host (codes "contextmenu") handle_context_menu true) w in
    let w = remove_listener (on copy_button (codes "click") handle_copy false) w in
    let w = remove_listener (on paste_button (codes "click") handle_paste false) w in
    let w = remove_listener (on close_button (codes "click") handle_close false) w in
    remove_node end_node (remove_node start_node (remove_node toolbar_node w))
