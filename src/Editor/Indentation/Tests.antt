-- ===== src/Editor/Indentation/Tests.antt =====
-- Enter after a long suggestion and after a short one.
use code_roam.Prelude.{ℕ, ◌≡◌, refl, ◌⊎◌, true, some, [], ◌∷◌, All}
use code_roam.Editor.Indentation.{
  Indenting, bounded_insert_newline_and_indent, should_keep_current_line_indentation,
}
use code_roam.Editor.Indentation.Bounded.{Jumps, IsModest, Some, newline_cases}

-- A view whose state is the suggested indentation, with units of two and a line indented by four;
-- after Enter the state is the indentation of the new line.
abbrev view : Indenting
view = record {
  State = ℕ;
  ranges = λ s. record { empty = true; head = 9 } ∷ [];
  line_from = λ s head. 0;
  suggested = λ s head. some s;
  line_indent = λ s head from. 4;
  unit = λ s. 2;
  insert_newline_and_indent = λ s. (s, true);
  insert_newline_keep_indent = λ s. (4, true);
}

kept : bounded_insert_newline_and_indent view 12 ≡ (4, true)
unfolding bounded_insert_newline_and_indent should_keep_current_line_indentation
kept = refl

taken : bounded_insert_newline_and_indent view 6 ≡ (6, true)
unfolding bounded_insert_newline_and_indent should_keep_current_line_indentation
taken = refl

newline_cases_example :
    (Some view 12 (Jumps view 12) (view.ranges 12)
      × (bounded_insert_newline_and_indent view 12 ≡ view.insert_newline_keep_indent 12))
    ⊎ (All (IsModest view 12) (view.ranges 12)
        × (bounded_insert_newline_and_indent view 12 ≡ view.insert_newline_and_indent 12))
newline_cases_example = newline_cases view 12
