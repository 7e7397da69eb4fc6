-- ===== src/Wm/WorkArea.antt =====
-- The work area of src/wm.c: the screen less a docked taskbar.
use crystalline_lattice.Common.{
  ◌≡◌, refl, true, false, List, [], ◌∷◌, arith, Bool-cases, inl, inr, All, ℤ, pos, ◌+ℤ◌, ◌-ℤ◌, ◌/ℤ◌,
  ◌≤ℤ◌, ◌<ℤ◌, +ℤ_parts, -ℤ_parts, int_laws, ltb_ℤ, leb_ℤ,
}
use crystalline_lattice.Window.{Window}
use crystalline_lattice.Wm.{Wm, Rect, three_quarters, dock, is_docked, dock_first, work_area}

-- A rectangle with a pixel, inside a screen of the given size.
pub record Inside (sw sh : ℤ) (r : Rect) : Type 0 where
  pub left : pos 0 ≤ℤ r.x
  pub top : pos 0 ≤ℤ r.y
  pub wide : pos 0 <ℤ r.w
  pub high : pos 0 <ℤ r.h
  pub right : r.x +ℤ r.w ≤ℤ sw
  pub bottom : r.y +ℤ r.h ≤ℤ sh

three_quarters_bound : (v : ℤ) → pos 0 <ℤ v → three_quarters v ≤ℤ v
unfolding three_quarters ◌/ℤ◌ ◌+ℤ◌
three_quarters_bound v h = ground arith

abbrev pub whole : ℤ → ℤ → Rect
whole sw sh = record { x = pos 0; y = pos 0; w = sw; h = sh }

module _ (sw sh : ℤ) (wide : pos 0 <ℤ sw) (high : pos 0 <ℤ sh) where
  whole-Inside : Inside sw sh (whole sw sh)
  whole-Inside = omega int_laws

  -- One lemma for each edge.
  top-Inside :
      (b : ℤ)
      → pos 0 <ℤ b
      → b <ℤ sh
      → Inside sw sh (record (whole sw sh) { y = b; h = sh -ℤ (b -ℤ pos 0) })
  top-Inside b p q = omega int_laws

  bottom-Inside :
      (y : ℤ)
      → pos 0 <ℤ y
      → y <ℤ pos 0 +ℤ sh
      → Inside sw sh (record (whole sw sh) { h = y -ℤ pos 0 })
  bottom-Inside y p q = omega int_laws

  left-Inside :
      (b : ℤ)
      → pos 0 <ℤ b
      → b <ℤ sw
      → Inside sw sh (record (whole sw sh) { x = b; w = sw -ℤ (b -ℤ pos 0) })
  left-Inside b p q = omega int_laws

  right-Inside :
      (x : ℤ)
      → pos 0 <ℤ x
      → x <ℤ pos 0 +ℤ sw
      → Inside sw sh (record (whole sw sh) { w = x -ℤ pos 0 })
  right-Inside x p q = omega int_laws

  dock-Inside : (t : Window) → t.h <ℤ sh → Inside sw sh (dock sw sh t (whole sw sh))
  unfolding dock
  dock-Inside t low = elim (Bool-cases (leb_ℤ (three_quarters sw) t.w)) [
    | inl full_w ↦ elim (Bool-cases (leb_ℤ t.y (pos 0))) [
      | inl up ↦ elim (Bool-cases (ltb_ℤ (pos 0) (t.y +ℤ t.h))) [
        | inl cut ↦
            rw (full_w, up, cut)
              (top-Inside (t.y +ℤ t.h) (ground arith) (ground (arith, +ℤ_parts t.y t.h)))
        | inr keep ↦ rw (full_w, up, keep) whole-Inside
      ]
      | inr down ↦ elim (Bool-cases (ltb_ℤ t.y (pos 0 +ℤ sh))) [
        | inl cut ↦ rw (full_w, down, cut) (bottom-Inside t.y (ground arith) (ground arith))
        | inr keep ↦ rw (full_w, down, keep) whole-Inside
      ]
    ]
    | inr part_w ↦ elim (Bool-cases (leb_ℤ (three_quarters sh) t.h)) [
      | inl full_h ↦ elim (Bool-cases (leb_ℤ t.x (pos 0))) [
        | inl near ↦ elim (Bool-cases (ltb_ℤ (pos 0) (t.x +ℤ t.w))) [
          | inl cut ↦
              rw (part_w, full_h, near, cut)
                (left-Inside (t.x +ℤ t.w) (ground arith)
                  (ground (arith, +ℤ_parts t.x t.w, three_quarters_bound sw wide)))
          | inr keep ↦ rw (part_w, full_h, near, keep) whole-Inside
        ]
        | inr far ↦ elim (Bool-cases (ltb_ℤ t.x (pos 0 +ℤ sw))) [
          | inl cut ↦ rw (part_w, full_h, far, cut) (right-Inside t.x (ground arith) (ground arith))
          | inr keep ↦ rw (part_w, full_h, far, keep) whole-Inside
        ]
      ]
      | inr part_h ↦ rw (part_w, part_h) whole-Inside
    ]
  ]

  dock_first-Inside :
      (ws : List Window)
      → All (λ t. is_docked t ≡ true → t.h <ℤ sh) ws
      → Inside sw sh (dock_first sw sh ws (whole sw sh))
  unfolding dock_first
  dock_first-Inside [] low = whole-Inside
  dock_first-Inside (t ∷ ws) low = elim (Bool-cases (is_docked t)) [
    | inl docked ↦ rw docked (dock-Inside t (low.0 docked))
    | inr other ↦ rw other (dock_first-Inside ws low.1)
  ]

-- On a screen with a pixel, if every mapped taskbar is less high than the screen, the work area
-- has a pixel and lies inside the screen, whichever edge the taskbar is docked to.
pub work_area-Inside :
    (wm : Wm)
    → pos 0 <ℤ wm.screen_w
    → pos 0 <ℤ wm.screen_h
    → All (λ t. is_docked t ≡ true → t.h <ℤ wm.screen_h) wm.stack.windows
    → Inside wm.screen_w wm.screen_h (work_area wm)
unfolding work_area
work_area-Inside wm wide high low =
    let r = dock_first-Inside wm.screen_w wm.screen_h wide high wm.stack.windows low in
    let area : Rect =
      dock_first wm.screen_w wm.screen_h wm.stack.windows (whole wm.screen_w wm.screen_h) in
    let w_kept : ltb_ℤ area.w (pos 1) ≡ false = ground (arith, r.wide) in
    let h_kept : ltb_ℤ area.h (pos 1) ≡ false = ground (arith, r.high) in rw (w_kept, h_kept) r

-- With a mapped taskbar at the bottom of the stack that is as wide as three quarters of the
-- screen, starts at its top edge or above and ends at its bottom edge or below, the height of the
-- work area is reset to the screen's and its origin is not: the area starts at the taskbar's
-- lower edge, and so lies below the screen.
pub work_area_below_screen :
    (wm : Wm) (t : Window) (ws : List Window)
    → pos 0 <ℤ wm.screen_h
    → wm.stack.windows ≡ t ∷ ws
    → is_docked t ≡ true
    → three_quarters wm.screen_w ≤ℤ t.w
    → t.y ≤ℤ pos 0
    → wm.screen_h ≤ℤ t.y +ℤ t.h
    → ((work_area wm).y ≡ t.y +ℤ t.h) × ((work_area wm).h ≡ wm.screen_h)
unfolding work_area dock_first dock
work_area_below_screen wm t ws high e docked full_w up tall =
    let a : leb_ℤ (three_quarters wm.screen_w) t.w ≡ true = ground arith in
    let b : leb_ℤ t.y (pos 0) ≡ true = ground arith in
    let c : ltb_ℤ (pos 0) (t.y +ℤ t.h) ≡ true = ground arith in
    let d : ltb_ℤ (wm.screen_h -ℤ (t.y +ℤ t.h -ℤ pos 0)) (pos 1) ≡ true =
      ground (arith, -ℤ_parts (t.y +ℤ t.h) (pos 0), -ℤ_parts wm.screen_h (t.y +ℤ t.h -ℤ pos 0)) in
    rw (e, docked, a, b, c, d) (refl, refl)
