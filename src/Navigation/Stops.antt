-- ===== src/Navigation/Stops.antt =====
-- The widgets that can have the focus, as a list, and the first of them.
use minimal_watch_firmware_e.Base.{
  ℕ, suc, ◌≡◌, refl, sym, Option, none, some, List, [], ◌∷◌, ◌++◌, Bool-cases, inl, inr, ◌==◌,
  if◌then◌else◌,
}
use minimal_watch_firmware_e.Navigation.{
  Widget, Widgets, widget, end, child, address_of, is_navigable, or_else, first_below, first_among,
}

-- The navigable widgets below one, in order, without those below another of them.
unfoldable mutual
  pub stops : Option ℕ → Widget → List Widget
  stops default (widget a g cs) = stops_among default cs

  pub stops_among : Option ℕ → Widgets → List Widget
  stops_among default end = []
  stops_among default (child c cs) =
      let deeper = stops default c in
      let later = stops_among default cs in
      (if is_navigable default c then c ∷ [] else deeper) ++ later

abbrev pub first_of : List Widget → Option Widget
first_of [] = none
first_of (x ∷ xs) = some x

-- The widget behind the one with an address.
abbrev pub next_of : ℕ → List Widget → Option Widget
next_of focus [] = none
next_of focus (x ∷ xs) =
    let rest = next_of focus xs in if address_of x == focus then first_of xs else rest

-- The widget before it, or `last` if it is the first.
abbrev pub prev_of : ℕ → Option Widget → List Widget → Option Widget
prev_of focus last [] = none
prev_of focus last (x ∷ xs) =
    let rest = prev_of focus (some x) xs in if address_of x == focus then last else rest

abbrev pub count_of : ℕ → List Widget → ℕ
count_of focus [] = 0
count_of focus (x ∷ xs) =
    let rest = count_of focus xs in if address_of x == focus then suc rest else rest

first_of-append : (xs ys : List Widget) → first_of (xs ++ ys) ≡ or_else (first_of xs) (first_of ys)
first_of-append [] ys = refl
first_of-append (x ∷ xs) ys = refl

mutual
  unfolding first_below stops

  pub first_below-first_of :
      (default : Option ℕ) (w : Widget) → first_below default w ≡ first_of (stops default w)
  first_below-first_of default (widget a g cs) = first_among-first_of default cs

  first_among-first_of :
      (default : Option ℕ) (cs : Widgets)
      → first_among default cs ≡ first_of (stops_among default cs)
  first_among-first_of default end = refl
  first_among-first_of default (child c cs) = elim (Bool-cases (is_navigable default c)) [
    | inl here ↦ rw here
    | inr deeper ↦
        rw (deeper, first_below-first_of default c, first_among-first_of default cs)
          (sym (first_of-append (stops default c) (stops_among default cs)))
  ]
