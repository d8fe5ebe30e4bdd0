-- ===== src/Gesture/Attach/Undone.antt =====
-- `dispose` leaves nothing of the controls behind.
use code_roam.Prelude.{ℕ, true, false, List, [], ◌∷◌, ◌++◌, ◌≡◌, refl, ap, ◌∙◌, All}
use mathlib.Core.List.{append-nil}
use code_roam.Js.Strings.{text_eq}
use code_roam.Gesture.Attach.{
  Node, toolbar_node, start_node, end_node, other_node, eqb_Node, Surroundings, without_node,
  without_listener, attach_controls, detach_controls,
}

-- The child of the host that is not the controller's.
abbrev pub IsOther : Node → Type 0
IsOther (other_node n) = Unit {0}
IsOther _ = ⊥

without-append :
    (n : Node) (xs ys : List Node)
    → ((i : ℕ) → eqb_Node (other_node i) n ≡ false)
    → eqb_Node n n ≡ true
    → All IsOther xs
    → without_node n (xs ++ (n ∷ ys)) ≡ xs ++ ys
unfolding without_node
without-append n [] ys apart same a = rw same refl
without-append n (other_node i ∷ xs) ys apart same (o, a) =
    rw (apart i) (ap (λ zs. other_node i ∷ zs) (without-append n xs ys apart same a))
without-append n (toolbar_node ∷ xs) ys apart same (o, a) = absurd o
without-append n (start_node ∷ xs) ys apart same (o, a) = absurd o
without-append n (end_node ∷ xs) ys apart same (o, a) = absurd o

-- In surroundings that hold none of the controller's elements, `dispose` after the attachment
-- restores the listeners and the children of the host.
pub detach-attach_controls :
    (w : Surroundings) → All IsOther w.children → detach_controls (attach_controls w) ≡ w
unfolding detach_controls attach_controls without_listener text_eq
detach-attach_controls w a =
    ap (λ xs. record { listeners = w.listeners; children = xs })
      (ap (λ xs. without_node end_node (without_node start_node xs))
          (without-append toolbar_node w.children (start_node ∷ end_node ∷ []) (λ i. refl) refl a)
        ∙ ap (without_node end_node)
            (without-append start_node w.children (end_node ∷ []) (λ i. refl) refl a)
        ∙ without-append end_node w.children [] (λ i. refl) refl a
        ∙ append-nil w.children)
