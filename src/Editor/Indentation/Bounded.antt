-- ===== src/Editor/Indentation/Bounded.antt =====
-- When Enter takes the language's suggestion, and when it keeps the indentation of the line.
use code_roam.Prelude.{
  ℕ, ◌+◌, ◌≤◌, ◌<◌, ltb, ◌≡◌, refl, ◌⊎◌, inl, inr, true, false, none, some, List, [], ◌∷◌, any, All,
  Bool-cases, Option-cases, ltb→lt, arith,
}
use code_roam.Editor.Indentation.{
  SelectedRange, Indenting, grows_too_far, keeps_at, should_keep_current_line_indentation,
  bounded_insert_newline_and_indent,
}

module _ (v : Indenting) (s : v.State) where
  abbrev allowed : SelectedRange → ℕ
  allowed r = v.line_indent s r.head (v.line_from s r.head) + v.unit s

  -- A cursor whose suggestion is more than one unit past its line.
  abbrev pub Jumps : SelectedRange → Type 0
  Jumps r = (r.empty ≡ true) × ((n : ℕ) × (v.suggested s r.head ≡ some n) × (allowed r < n))

  -- A range that is no cursor, or whose suggestion, if it has one, is at most that.
  pub data IsModest (r : SelectedRange) : Type 0 where
    no_cursor : r.empty ≡ false → IsModest r
    no_suggestion : v.suggested s r.head ≡ none → IsModest r
    within : {n : ℕ} → v.suggested s r.head ≡ some n → n ≤ allowed r → IsModest r

  pub data Some (P : SelectedRange → Type 0) : List SelectedRange → Type 0 where
    here : {r : SelectedRange} {rs : List SelectedRange} → P r → Some P (r ∷ rs)
    there : {r : SelectedRange} {rs : List SelectedRange} → Some P rs → Some P (r ∷ rs)

  keeps_at_cases :
      (r : SelectedRange)
      → ((keeps_at v s r ≡ true) × Jumps r) ⊎ ((keeps_at v s r ≡ false) × IsModest r)
  unfolding keeps_at grows_too_far
  keeps_at_cases r = elim (Bool-cases r.empty) [
    | inr range ↦ inr (simp range refl, no_cursor range)
    | inl cursor ↦ elim (Option-cases (v.suggested s r.head)) [
      | inl silent ↦ inr (simp (cursor, silent) refl, no_suggestion silent)
      | inr (n, says) ↦ elim (Bool-cases (ltb (allowed r) n)) [
        | inl far ↦ inl (simp (cursor, says, far) refl, (cursor, (n, says, ltb→lt _ _ far)))
        | inr near ↦
            let close : n ≤ allowed r = ground arith in
            inr (simp (cursor, says, near) refl, within says close)
      ]
    ]
  ]

  any_cases :
      (rs : List SelectedRange)
      → ((any (keeps_at v s) rs ≡ true) × Some Jumps rs)
        ⊎ ((any (keeps_at v s) rs ≡ false) × All IsModest rs)
  any_cases [] = inr (refl, tt)
  any_cases (r ∷ rs) = elim (keeps_at_cases r) [
    | inl (yes_r, j) ↦ inl (rw yes_r refl, here j)
    | inr (no_r, m) ↦ elim (any_cases rs) [
      | inl (later, js) ↦ inl (rw (no_r, later) refl, there js)
      | inr (never, ms) ↦ inr (rw (no_r, never) refl, (m, ms))
    ]
  ]

  -- Enter keeps the indentation of the line when the suggestion of some cursor is more than one
  -- unit past its line, and takes the suggestions when none is.
  pub newline_cases :
      (Some Jumps (v.ranges s)
        × (bounded_insert_newline_and_indent v s ≡ v.insert_newline_keep_indent s))
      ⊎ (All IsModest (v.ranges s)
          × (bounded_insert_newline_and_indent v s ≡ v.insert_newline_and_indent s))
  unfolding bounded_insert_newline_and_indent should_keep_current_line_indentation
  newline_cases = elim (any_cases (v.ranges s)) [
    | inl (keeps, js) ↦ inl (js, rw keeps refl)
    | inr (takes, ms) ↦ inr (ms, rw takes refl)
  ]
