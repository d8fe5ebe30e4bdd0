-- ===== src/Terminal/Whole/Tests.antt =====
-- A selection that is copied, posted, and pasted by Flutter, through the whole page.
use code_roam.Prelude.{ℕ, get_elem?, some, pos, true, none, List, [], ◌∷◌, ◌≡◌, refl}
use mathlib.Core.List.{mem-cons_self}
use code_roam.Js.{Value, get}
use code_roam.Js.Strings.{Text, codes, text_eq}
use code_roam.Bridge.{Shown, shows, message_of, send}
use code_roam.Selection.Pixels.{pixels}
use code_roam.Selection.Clipboard.{bounded_terminal_clipboard_text}
use code_roam.Gesture.{Bounds, Terminal}
use code_roam.Gesture.Handlers.{handle_copy}
use code_roam.Gesture.Handlers.Events.{copy, handle_event, happens}
use code_roam.Terminal.{event_id, receive, on_copy, send_terminal_stream_event}
use code_roam.Prelude.{◌+◌, ◌++◌}
use code_roam.Terminal.{Page, input_data}
use code_roam.Terminal.Performed.{tidings}
use code_roam.Terminal.PasteBack.{paste_value}
use code_roam.Terminal.Whole.{
  Calls, commands, since, Whole, react_all, after_controls, after_page, value_arrives, acts, hears,
  begun, Lived, begins, lives,
}
use code_roam.Terminal.Whole.Reports.{selection_copied, reported, reports_of_message}
use code_roam.Terminal.Whole.Relays.{IsRelayed, Lived-IsRelayed}
use code_roam.Terminal.Stream.{ids}
use code_roam.Terminal.Whole.Ids.{Lived-distinct}
use code_roam.Terminal.Whole.PasteBack.{posted-receive}

abbrev no_bounds : Bounds pixels
no_bounds = record { left = pos 0; top = pos 0; width = pos 0; height = pos 0 }

-- A terminal that is not laid out, with a selection; the state is what was pasted.
abbrev clipboard : Terminal pixels
clipboard = record {
  State = List Text;
  cols = λ s. pos 8;
  rows = λ s. pos 2;
  viewport_y = λ s. pos 0;
  has_selection = λ s. true;
  get_selection = λ s. codes "ls";
  select = λ column row length s. (s, true);
  clear_selection = λ s. (s, true);
  focus = λ s. s;
  line = λ s row. none;
  screen_bounds = λ s. none;
  host_bounds = λ s. no_bounds;
  toolbar_bounds = λ hidden s. no_bounds;
}

abbrev calls : Calls clipboard.State
calls = record {
  write = λ text s. (s, []);
  focus = λ s. (s, []);
  clear = λ s. ([], []);
  paste = λ text s. (text ∷ s, input_data text ∷ []);
  resize = λ columns rows s. (s, []);
}

abbrev show_any : Value → Shown
show_any v = shows (codes "?")

abbrev stream : Text
stream = codes "5f"

abbrev W : Type 0
W = Whole pixels clipboard calls show_any stream

abbrev first : W
first = begun pixels clipboard calls show_any stream []

abbrev after_copy : W
after_copy =
    after_controls pixels clipboard calls show_any stream first
      (handle_event pixels clipboard copy first.session)

abbrev after_paste : W
after_paste =
    after_page pixels clipboard calls show_any stream after_copy
      (value_arrives (paste_value (codes "ls"))) true

after_copy-Lived : Lived pixels clipboard calls show_any stream [] after_copy
after_copy-Lived = lives begins (acts (happens copy))

Lived-IsRelayed_example : IsRelayed pixels clipboard calls show_any stream after_paste
Lived-IsRelayed_example =
    Lived-IsRelayed pixels clipboard calls show_any stream [] after_paste
      (lives after_copy-Lived (hears (value_arrives (paste_value (codes "ls"))) true))

ls_is_posted : reported after_copy.page.port.posted ≡ selection_copied (codes "ls") ∷ []
unfolding handle_event handle_copy bounded_terminal_clipboard_text after_controls since react_all
    on_copy send_terminal_stream_event send message_of reported reports_of_message text_eq get
ls_is_posted = refl

abbrev pasted : Page (commands clipboard.State calls)
pasted =
    receive (commands clipboard.State calls) show_any stream (paste_value (codes "ls"))
      after_copy.page

posted-receive_example :
    (pasted.terminal ≡ codes "ls" ∷ after_copy.page.terminal)
    × (pasted.port.posted
        ≡ after_copy.page.port.posted
          ++ tidings stream after_copy.page.sequence (input_data (codes "ls") ∷ []))
    × (pasted.sequence ≡ after_copy.page.sequence + 1)
posted-receive_example =
    posted-receive pixels clipboard calls show_any stream [] after_copy (codes "ls")
      after_copy-Lived (rw ls_is_posted mem-cons_self)

abbrev copied_again : W
copied_again =
    after_controls pixels clipboard calls show_any stream after_copy
      (handle_event pixels clipboard copy after_copy.session)

second_id : get_elem? (ids copied_again.page.port.posted) 1 ≡ some (event_id stream 2)
unfolding handle_event handle_copy bounded_terminal_clipboard_text after_controls since react_all
    on_copy send_terminal_stream_event send message_of
second_id = refl

abbrev second : ℕ
second = 1

Lived-distinct_example : second ≡ second
Lived-distinct_example =
    Lived-distinct pixels clipboard calls show_any stream [] copied_again second second
      (event_id stream 2) (lives after_copy-Lived (acts (happens copy))) second_id second_id
