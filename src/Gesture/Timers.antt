-- ===== src/Gesture/Timers.antt =====
-- The timers that the browser holds for the controller, read off the log of effects.
use code_roam.Prelude.{
  ℕ, ◌==◌, List, [], ◌∷◌, Option, none, some, ◌≡◌, arith, if◌then◌else◌, any, true,
}
use code_roam.Gesture.{
  Effect, set_timeout, clear_timeout, timeout_ran, prevent_default, stop_propagation, on_paste,
  on_copy,
}

-- The timers that were set, and neither cleared nor run.
abbrev pub remove : ℕ → List ℕ → List ℕ
remove timer [] = []
remove timer (x ∷ xs) = if x == timer then remove timer xs else x ∷ remove timer xs

abbrev pub pending : List Effect → List ℕ
pending [] = []
pending (set_timeout timer ∷ rest) = timer ∷ pending rest
pending (clear_timeout timer ∷ rest) = remove timer (pending rest)
pending (timeout_ran timer ∷ rest) = remove timer (pending rest)
pending (prevent_default ∷ rest) = pending rest
pending (stop_propagation ∷ rest) = pending rest
pending (on_paste ∷ rest) = pending rest
pending (on_copy text ∷ rest) = pending rest

-- The timers that a variable for one timer accounts for.
abbrev pub armed : Option ℕ → List ℕ
armed none = []
armed (some timer) = timer ∷ []

pub remove-armed : (timer : ℕ) → remove timer (armed (some timer)) ≡ []
remove-armed timer = ground arith

-- The timer that runs is the one that the variable holds.
pub armed-any : (timer : ℕ) (o : Option ℕ) → any (λ x. x == timer) (armed o) ≡ true → o ≡ some timer
armed-any timer none h = cc
armed-any timer (some x) h = ground arith
