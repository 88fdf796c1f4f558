-- ===== src/Navigation.antt =====
-- components/ui_base/src/navigation.c: where the encoder moves the focus in the tree of widgets.
--
-- The widgets belong to LVGL: the tree is a parameter, each widget with its address, its group and its
-- children in order. `lv_group_get_default` is an argument, as is the way from a widget up to the
-- screen. `none` is the null pointer.
pub mod Stops
pub mod Forward
pub mod Backward
pub mod Order
mod Tests
use minimal_watch_firmware_e.Base.{
  ℕ, Bool, true, false, Option, none, some, List, [], ◌∷◌, ◌==◌, if◌then◌else◌,
}

mutual
  pub data Widget : Type 0 where
    widget : (address : ℕ) → (group : Option ℕ) → Widgets → Widget

  pub data Widgets : Type 0 where
    end : Widgets
    child : Widget → Widgets → Widgets

abbrev pub address_of : Widget → ℕ
address_of (widget a g cs) = a

abbrev pub same_group : Option ℕ → Option ℕ → Bool
same_group none none = true
same_group none (some h) = false
same_group (some g) none = false
same_group (some g) (some h) = g == h

-- `lv_obj_get_group(x) == lv_group_get_default()`
abbrev pub is_navigable : Option ℕ → Widget → Bool
is_navigable default (widget a g cs) = same_group g default

-- `if (found) return found;` with what follows.
abbrev pub or_else : Option Widget → Option Widget → Option Widget
or_else none w = w
or_else (some v) w = some v

unfoldable mutual
  -- The loop of `find_first_focusable_child_dfs`.
  pub first_below : Option ℕ → Widget → Option Widget
  first_below default (widget a g cs) = first_among default cs

  pub first_among : Option ℕ → Widgets → Option Widget
  first_among default end = none
  first_among default (child c cs) =
      let deeper = first_below default c in
      let later = first_among default cs in
      if is_navigable default c then some c else or_else deeper later

-- `find_first_focusable_child_dfs`
unfoldable pub find_first_focusable_child_dfs : Option ℕ → Option Widget → Option Widget
find_first_focusable_child_dfs default none = none
find_first_focusable_child_dfs none (some root) = none
find_first_focusable_child_dfs (some g) (some root) = first_below (some g) root

-- `find_first_focusable_parent_dfs`, on the widgets above one, the nearest first.
unfoldable pub find_first_focusable_parent_dfs : Option ℕ → List Widget → Option Widget
find_first_focusable_parent_dfs default [] = none
find_first_focusable_parent_dfs default (p ∷ above) =
    let rest = find_first_focusable_parent_dfs default above in
    if is_navigable default p then some p else rest

-- What `scan_subtree_focus_sequence` returns, `*last_found_nav` and `*origin_node_passed`.
pub record Scan : Type 0 where
  pub found : Option Widget
  pub last_found_nav : Option Widget
  pub origin_node_passed : Bool

-- On with the loop, if nothing was found.
abbrev pub resolved : Scan → Scan → Scan
resolved here rest = elim here.found [ none ↦ rest | some w ↦ here ]

unfoldable mutual
  -- `scan_subtree_focus_sequence`, of a widget with an address and forward or not.
  pub scan : Option ℕ → ℕ → Bool → Widget → Option Widget → Bool → Scan
  scan default focus forward (widget a g cs) last passed =
      scan_children default focus forward cs last passed

  scan_children : Option ℕ → ℕ → Bool → Widgets → Option Widget → Bool → Scan
  scan_children default focus forward end last passed = record {
    found = none;
    last_found_nav = last;
    origin_node_passed = passed;
  }
  scan_children default focus true (child c cs) last passed =
      let here = address_of c == focus in
      let on = scan_children default focus true cs last (if here then true else passed) in
      let deeper = scan default focus true c last passed in
      let later =
        scan_children default focus true cs deeper.last_found_nav deeper.origin_node_passed in
      if is_navigable default c
      then (if passed
          then record { found = some c; last_found_nav = last; origin_node_passed = passed }
          else on)
      else resolved deeper later
  scan_children default focus false (child c cs) last passed =
      let on = scan_children default focus false cs (some c) passed in
      let deeper = scan default focus false c last passed in
      let later =
        scan_children default focus false cs deeper.last_found_nav deeper.origin_node_passed in
      if is_navigable default c
      then (if address_of c == focus
          then record { found = last; last_found_nav = last; origin_node_passed = passed }
          else on)
      else resolved deeper later

abbrev pub scan_below : Option ℕ → ℕ → Bool → Option Widget → Option Widget
scan_below default focus forward none = none
scan_below default focus forward (some roof) = (scan default focus forward roof none false).found

-- `find_next_focusable_sibling` and `find_prev_focusable_sibling`: a widget, and those above it.
unfoldable pub find_next_focusable_sibling : Option ℕ → List Widget → Option Widget → Option Widget
find_next_focusable_sibling default above none = none
find_next_focusable_sibling default above (some w) =
    scan_below default (address_of w) true (find_first_focusable_parent_dfs default above)

unfoldable pub find_prev_focusable_sibling : Option ℕ → List Widget → Option Widget → Option Widget
find_prev_focusable_sibling default above none = none
find_prev_focusable_sibling default above (some w) =
    scan_below default (address_of w) false (find_first_focusable_parent_dfs default above)
