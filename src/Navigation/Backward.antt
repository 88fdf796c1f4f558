-- ===== src/Navigation/Backward.antt =====
-- The walk backward over the tree of widgets, against the list.
use minimal_watch_firmware_e.Base.{
  ℕ, ◌+◌, ◌≤◌, ◌<◌, ◌≡◌, ◌∙◌, refl, sym, ap, Bool, false, Option, none, some, List, [], ◌∷◌, ◌++◌,
  arith, ℕ_discrete, Bool-cases, Option-cases, inl, inr, ◌==◌,
}
use minimal_watch_firmware_e.Navigation.{
  Widget, Widgets, widget, end, child, address_of, is_navigable, Scan, resolved, scan,
  scan_children,
}
use minimal_watch_firmware_e.Navigation.Stops.{stops, stops_among, prev_of, count_of}

-- The last of some widgets, or `last`.
abbrev pub last_of : Option Widget → List Widget → Option Widget
last_of last [] = last
last_of last (x ∷ xs) = last_of (some x) xs

count_of-append :
    (focus : ℕ) (xs ys : List Widget)
    → count_of focus (xs ++ ys) ≡ count_of focus xs + count_of focus ys
count_of-append focus [] ys = omega arith
count_of-append focus (x ∷ xs) ys = ground (arith, count_of-append focus xs ys)

-- A list without the widget.
module _ (focus : ℕ) where
  prev_of-none :
      (last : Option Widget) (xs : List Widget)
      → count_of focus xs ≡ 0
      → prev_of focus last xs ≡ none
  prev_of-none last [] h = refl
  prev_of-none last (x ∷ xs) h = elim (Bool-cases (address_of x == focus)) [
    | inl here ↦ absurd (ground (arith, h, here))
    | inr on ↦ rw on (prev_of-none (some x) xs (ground (arith, h, on)))
  ]

  prev_of-append_out :
      (last : Option Widget) (xs ys : List Widget)
      → count_of focus xs ≡ 0
      → (prev_of focus last (xs ++ ys) ≡ prev_of focus (last_of last xs) ys)
        × (last_of last (xs ++ ys) ≡ last_of (last_of last xs) ys)
  prev_of-append_out last [] ys h = (refl, refl)
  prev_of-append_out last (x ∷ xs) ys h = elim (Bool-cases (address_of x == focus)) [
    | inl here ↦ absurd (ground (arith, h, here))
    | inr on ↦
        let (a, b) = prev_of-append_out (some x) xs ys (ground (arith, h, on)) in (rw on a, b)
  ]

  prev_of-append_in :
      (last : Option Widget) (xs ys : List Widget)
      → 0 < count_of focus xs
      → prev_of focus last (xs ++ ys) ≡ prev_of focus last xs
  prev_of-append_in last [] ys h = absurd (omega arith)
  prev_of-append_in last (x ∷ xs) ys h = elim (Bool-cases (address_of x == focus)) [
    | inl here ↦ rw here refl
    | inr on ↦ rw on (prev_of-append_in (some x) xs ys (ground (arith, h, on)))
  ]

resolved-none : (s t : Scan) → s.found ≡ none → resolved s t ≡ t
resolved-none s t e = rw e

resolved_found : (s t : Scan) → t.found ≡ none → (resolved s t).found ≡ s.found
resolved_found s t e = elim (Option-cases s.found) [
  | inl nothing ↦ ap (λ r. r.found) (resolved-none s t nothing) ∙ e ∙ sym nothing
  | inr (w, some_w) ↦ rw some_w refl
]

-- A part of the list, and what is behind it.
resolved-prev_of :
    (focus : ℕ) (last : Option Widget) (xs ys : List Widget) (s t : Scan)
    → count_of focus xs + count_of focus ys ≤ 1
    → s.found ≡ prev_of focus last xs
    → (count_of focus xs ≡ 0 → s.last_found_nav ≡ last_of last xs)
    → t.found ≡ prev_of focus s.last_found_nav ys
    → (count_of focus ys ≡ 0 → t.last_found_nav ≡ last_of s.last_found_nav ys)
    → ((resolved s t).found ≡ prev_of focus last (xs ++ ys))
      × (count_of focus (xs ++ ys) ≡ 0 → (resolved s t).last_found_nav ≡ last_of last (xs ++ ys))
resolved-prev_of focus last xs ys s t h a b c d = elim (ℕ_discrete (count_of focus xs) 0) [
  | yes out ↦
      let (prev, end_of) = prev_of-append_out focus last xs ys out in
      let on = resolved-none s t (a ∙ prev_of-none focus last xs out) in
      (
        ap (λ r. r.found) on ∙ c ∙ ap (λ l. prev_of focus l ys) (b out) ∙ sym prev,
        λ z.
            ap (λ r. r.last_found_nav) on
            ∙ d (omega (arith, z, count_of-append focus xs ys))
            ∙ ap (λ l. last_of l ys) (b out)
            ∙ sym end_of,
      )
  | no inside ↦ (
    resolved_found s t (c ∙ prev_of-none focus s.last_found_nav ys (omega (arith, h, inside)))
        ∙ a
        ∙ sym (prev_of-append_in focus last xs ys (omega (arith, inside))),
    λ z. absurd (omega (arith, z, inside, count_of-append focus xs ys)),
  )
]

mutual
  unfolding scan stops

  pub scan-prev_of :
      (default : Option ℕ) (focus : ℕ) (w : Widget) (last : Option Widget) (passed : Bool)
      → count_of focus (stops default w) ≤ 1
      → ((scan default focus false w last passed).found ≡ prev_of focus last (stops default w))
        × (count_of focus (stops default w) ≡ 0
            → (scan default focus false w last passed).last_found_nav
              ≡ last_of last (stops default w))
  scan-prev_of default focus (widget a g cs) last passed h =
      scan_children-prev_of default focus cs last passed h

  scan_children-prev_of :
      (default : Option ℕ) (focus : ℕ) (cs : Widgets) (last : Option Widget) (passed : Bool)
      → count_of focus (stops_among default cs) ≤ 1
      → ((scan_children default focus false cs last passed).found
          ≡ prev_of focus last (stops_among default cs))
        × (count_of focus (stops_among default cs) ≡ 0
            → (scan_children default focus false cs last passed).last_found_nav
              ≡ last_of last (stops_among default cs))
  scan_children-prev_of default focus end last passed h = (refl, λ _. refl)
  scan_children-prev_of default focus (child c cs) last passed h =
      elim (Bool-cases (is_navigable default c)) [
        | inl here ↦ elim (Bool-cases (address_of c == focus)) [
          | inl hit ↦ rw (here, hit) (refl, λ z. absurd (omega (arith, z)))
          | inr miss ↦
              rw (here, miss)
                (scan_children-prev_of default focus cs (some c) passed (rw (here, miss) at h))
        ]
        | inr deeper ↦
            let s = scan default focus false c last passed in
            let few : count_of focus (stops default c) + count_of focus (stops_among default cs)
                ≤ 1 =
              omega (
                arith,
                rw deeper at h,
                count_of-append focus (stops default c) (stops_among default cs),
              ) in
            let (a, b) = scan-prev_of default focus c last passed (omega (arith, few)) in
            let (x, y) =
              scan_children-prev_of default focus cs s.last_found_nav s.origin_node_passed
                (omega (arith, few)) in
            rw deeper (
              resolved-prev_of focus last (stops default c) (stops_among default cs) s
                (scan_children default focus false cs s.last_found_nav s.origin_node_passed) few a b
                x y)
      ]
