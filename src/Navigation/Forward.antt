-- ===== src/Navigation/Forward.antt =====
-- The walk forward over the tree of widgets, against the list.
use minimal_watch_firmware_e.Base.{
  ℕ, ◌≡◌, ◌∙◌, refl, sym, ap, Bool, true, false, Option, none, some, List, [], ◌∷◌, ◌++◌,
  Bool-cases, inl, inr, ◌==◌, if◌then◌else◌,
}
use minimal_watch_firmware_e.Navigation.{
  Widget, Widgets, widget, end, child, address_of, is_navigable, Scan, resolved, scan,
  scan_children,
}
use minimal_watch_firmware_e.Navigation.Stops.{stops, stops_among, first_of, next_of}

-- The walk forward, on the list.
pub flat : ℕ → List Widget → Option Widget → Bool → Scan
flat focus [] last passed = record {
  found = none;
  last_found_nav = last;
  origin_node_passed = passed;
}
flat focus (x ∷ xs) last passed =
    let rest = flat focus xs last (if address_of x == focus then true else passed) in
    if passed
    then record { found = some x; last_found_nav = last; origin_node_passed = passed }
    else rest

flat-append :
    (focus : ℕ) (xs ys : List Widget) (last : Option Widget) (passed : Bool)
    → flat focus (xs ++ ys) last passed
      ≡ resolved (flat focus xs last passed) (
          flat focus ys
            (flat focus xs last passed).last_found_nav
            (flat focus xs last passed).origin_node_passed)
unfolding flat
flat-append focus [] ys last passed = refl
flat-append focus (x ∷ xs) ys last true = refl
flat-append focus (x ∷ xs) ys last false =
    flat-append focus xs ys last (if address_of x == focus then true else false)

mutual
  unfolding scan stops flat

  pub scan-flat :
      (default : Option ℕ) (focus : ℕ) (w : Widget) (last : Option Widget) (passed : Bool)
      → scan default focus true w last passed ≡ flat focus (stops default w) last passed
  scan-flat default focus (widget a g cs) last passed =
      scan_children-flat default focus cs last passed

  scan_children-flat :
      (default : Option ℕ) (focus : ℕ) (cs : Widgets) (last : Option Widget) (passed : Bool)
      → scan_children default focus true cs last passed
        ≡ flat focus (stops_among default cs) last passed
  scan_children-flat default focus end last passed = refl
  scan_children-flat default focus (child c cs) last passed =
      elim (Bool-cases (is_navigable default c)) [
        | inl here ↦ rw here (
            ap
              (λ r.
                if passed
                then record { found = some c; last_found_nav = last; origin_node_passed = passed }
                else r)
              (scan_children-flat default focus cs last
                (if address_of c == focus then true else passed)))
        | inr deeper ↦
            let r = flat focus (stops default c) last passed in
            rw deeper (
              ap
                (λ s.
                  resolved s
                    (scan_children default focus true cs s.last_found_nav s.origin_node_passed))
                (scan-flat default focus c last passed)
              ∙ ap (resolved r)
                  (scan_children-flat default focus cs r.last_found_nav r.origin_node_passed)
              ∙ sym (flat-append focus (stops default c) (stops_among default cs) last passed))
      ]

flat_passed :
    (focus : ℕ) (xs : List Widget) (last : Option Widget)
    → (flat focus xs last true).found ≡ first_of xs
unfolding flat
flat_passed focus [] last = refl
flat_passed focus (x ∷ xs) last = refl

pub flat-next_of :
    (focus : ℕ) (xs : List Widget) (last : Option Widget)
    → (flat focus xs last false).found ≡ next_of focus xs
unfolding flat
flat-next_of focus [] last = refl
flat-next_of focus (x ∷ xs) last = elim (Bool-cases (address_of x == focus)) [
  | inl here ↦ rw here (flat_passed focus xs last)
  | inr on ↦ rw on (flat-next_of focus xs last)
]
