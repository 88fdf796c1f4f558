-- ===== src/Navigation/Tests.antt =====
-- The focus in a small tree of widgets.
use minimal_watch_firmware_e.Base.{◌≡◌, refl, none, some, [], ◌∷◌}
use minimal_watch_firmware_e.Navigation.{
  Widget, widget, end, child, find_first_focusable_child_dfs, find_first_focusable_parent_dfs,
  find_next_focusable_sibling, first_below, scan,
}

-- Two buttons in a panel, and a list of the group with an item in it.
abbrev first_button : Widget
first_button = widget 11 (some 7) end

abbrev second_button : Widget
second_button = widget 12 (some 7) end

abbrev item : Widget
item = widget 14 (some 7) end

abbrev listview : Widget
listview = widget 13 (some 7) (child item end)

abbrev panel : Widget
panel = widget 10 none (child first_button (child second_button end))

abbrev screen : Widget
screen = widget 1 (some 7) (child panel (child listview end))

second_is_next :
    find_next_focusable_sibling (some 7) (panel ∷ screen ∷ []) (some first_button)
    ≡ some second_button
unfolding find_next_focusable_sibling find_first_focusable_parent_dfs scan
second_is_next = refl

item_is_below : find_first_focusable_child_dfs (some 7) (some listview) ≡ some item
unfolding find_first_focusable_child_dfs first_below
item_is_below = refl
