-- ===== src/Wm/Snap.antt =====
-- Aero Snap in src/wm.c: the release of a drag at an edge of the screen.
use crystalline_lattice.Common.{
  ◌≡◌, refl, ap, ◌∙◌, true, false, not, none, some, arith, ◌⊎◌, Bool-cases, Option-cases, inl, inr,
  ℤ, pos, ◌+ℤ◌, ◌-ℤ◌, ◌/ℤ◌, ltb_ℤ, leb_ℤ, if◌then◌else◌, ◌<ℤ◌, ◌≤ℤ◌, int_laws,
}
use crystalline_lattice.Window
use crystalline_lattice.Window.{Window, WindowStack, has_ssd, place}
use crystalline_lattice.Window.Effects.{by_id-set_geometry, by_id-update}
use crystalline_lattice.Wm.{
  Wm, Rect, pointer_button, release, btn_left, snap_on_release, snap_target, save_rect, work_area,
  snap_edge,
}

-- What the release clears first, and that it does not change the target.
abbrev pub let_go : Wm → Wm
let_go wm = record wm { moving = false; move_id = 0 }

snap_target-let_go : (wm : Wm) → snap_target (let_go wm) ≡ snap_target wm
unfolding snap_target work_area
snap_target-let_go wm = refl

release-let_go :
    (wm : Wm)
    → wm.moving ≡ true
    → pointer_button wm btn_left false ≡ snap_on_release (let_go wm) wm.move_id
unfolding pointer_button release
release-let_go wm moving = rw (moving, release)

release-places :
    (wm : Wm) (v : Window) (r : Rect)
    → wm.moving ≡ true
    → Window.by_id wm.stack wm.move_id ≡ some v
    → has_ssd v ≡ true
    → snap_target wm ≡ some r
    → pos 0 <ℤ r.w
    → pos 0 <ℤ r.h
    → let wm' = pointer_button wm btn_left false in
      (Window.by_id wm'.stack wm.move_id
        ≡ some (record (save_rect v) { x = r.x; y = r.y; w = r.w; h = r.h }))
      × (wm'.moving ≡ false)
      × (wm'.move_id ≡ 0)
      × (wm'.reconfigured_id ≡ wm.move_id)
unfolding snap_on_release place
release-places wm v r moving there ssd edge wide high =
    let plain : not (has_ssd v) ≡ false = ground arith in
    let target : snap_target (let_go wm) ≡ some r = snap_target-let_go wm ∙ edge in
    let by_w : ltb_ℤ (pos 0) r.w ≡ true = ground arith in
    let by_h : ltb_ℤ (pos 0) r.h ≡ true = ground arith in
    let saved =
      by_id-update wm.stack wm.move_id wm.move_id save_rect
        (λ t. unfold save_rect in ground arith) in
    let placed =
      by_id-set_geometry (Window.update wm.stack wm.move_id save_rect) wm.move_id wm.move_id r.x r.y
        r.w r.h in
    rw (release-let_go wm moving, snap_on_release, there, plain, target)
      (ground (arith, there, saved, placed), refl, refl, refl)

-- The rectangle that the place of the cursor asks for: the work area at the top edge, below it
-- the left half of the area at the left edge, or else its right half at the right edge. An edge is 16
-- pixels wide.
pub data AsksFor (wm : Wm) : Rect → Type 0 where
  at_top : wm.cursor_y ≤ℤ pos 16 → AsksFor wm (work_area wm)
  at_left :
      pos 16 <ℤ wm.cursor_y
      → wm.cursor_x ≤ℤ pos 16
      → AsksFor wm (record {
        x = (work_area wm).x;
        y = (work_area wm).y;
        w = (work_area wm).w /ℤ 2;
        h = (work_area wm).h;
      })
  at_right :
      pos 16 <ℤ wm.cursor_y
      → pos 16 <ℤ wm.cursor_x
      → wm.screen_w -ℤ pos 16 ≤ℤ wm.cursor_x
      → AsksFor wm (record {
        x = (work_area wm).x +ℤ (work_area wm).w -ℤ (work_area wm).w /ℤ 2;
        y = (work_area wm).y;
        w = (work_area wm).w /ℤ 2;
        h = (work_area wm).h;
      })

snap_target-AsksFor : (wm : Wm) (r : Rect) → AsksFor wm r → snap_target wm ≡ some r
unfolding snap_target
snap_target-AsksFor wm _ (at_top top) =
    let t : leb_ℤ wm.cursor_y (pos snap_edge) ≡ true = ground (arith, top) in rw t refl
snap_target-AsksFor wm _ (at_left low near) =
    let t : leb_ℤ wm.cursor_y (pos snap_edge) ≡ false = ground (arith, low) in
    let l : leb_ℤ wm.cursor_x (pos snap_edge) ≡ true = ground (arith, near) in rw (t, l) refl
snap_target-AsksFor wm _ (at_right low far near) =
    let t : leb_ℤ wm.cursor_y (pos snap_edge) ≡ false = ground (arith, low) in
    let l : leb_ℤ wm.cursor_x (pos snap_edge) ≡ false = ground (arith, far) in
    let r : leb_ℤ (wm.screen_w -ℤ pos snap_edge) wm.cursor_x ≡ true = ground (arith, near) in
    rw (t, l, r) refl

save_rect-record :
    (v : Window)
    → save_rect v ≡ record v {
      snapped = true;
      saved_x = if v.snapped then v.saved_x else v.x;
      saved_y = if v.snapped then v.saved_y else v.y;
      saved_w = if v.snapped then v.saved_w else v.w;
      saved_h = if v.snapped then v.saved_h else v.h;
    }
unfolding save_rect
save_rect-record v = elim (Bool-cases v.snapped) [ inl e ↦ rw e refl | inr e ↦ rw e refl ]

-- The end of a drag at an edge gives a window that is there and that the server decorates the
-- rectangle that this edge asks for, where that has a pixel: the whole work area at the top, and a
-- half of it at the left or the right. The window is then snapped and its saved rectangle is its
-- floating one: the one that it had at the release, or, where it was snapped already, the one that
-- was saved before. Nothing else of it changes, the drag is over, and a CONFIGURE is asked for.
pub release-snaps :
    (wm : Wm) (v : Window) (r : Rect)
    → wm.moving ≡ true
    → Window.by_id wm.stack wm.move_id ≡ some v
    → has_ssd v ≡ true
    → AsksFor wm r
    → pos 0 <ℤ r.w
    → pos 0 <ℤ r.h
    → let wm' = pointer_button wm btn_left false in
      (Window.by_id wm'.stack wm.move_id
        ≡ some (record v {
          x = r.x;
          y = r.y;
          w = r.w;
          h = r.h;
          snapped = true;
          saved_x = if v.snapped then v.saved_x else v.x;
          saved_y = if v.snapped then v.saved_y else v.y;
          saved_w = if v.snapped then v.saved_w else v.w;
          saved_h = if v.snapped then v.saved_h else v.h;
        }))
      × (wm'.moving ≡ false)
      × (wm'.move_id ≡ 0)
      × (wm'.reconfigured_id ≡ wm.move_id)
release-snaps wm v r moving there ssd edge wide high =
    let (placed, over, nobody, asked) =
      release-places wm v r moving there ssd (snap_target-AsksFor wm r edge) wide high in
    (
      placed
          ∙ ap (λ (u : Window). some (record u { x = r.x; y = r.y; w = r.w; h = r.h }))
              (save_rect-record v),
      over,
      nobody,
      asked,
    )

-- Away from the edges the end of a drag leaves every window where it is, and clears the drag
-- alone.
release-keeps :
    (wm : Wm)
    → wm.moving ≡ true
    → snap_target wm ≡ none
    → pointer_button wm btn_left false ≡ let_go wm
unfolding snap_on_release
release-keeps wm moving away =
    let target : snap_target (let_go wm) ≡ none = snap_target-let_go wm ∙ away in
    rw (release-let_go wm moving) (elim (Option-cases (Window.by_id wm.stack wm.move_id)) [
      | inl e ↦ rw (e, snap_on_release)
      | inr (v, e) ↦ elim (Bool-cases (not (has_ssd v))) [
        | inl plain ↦ rw (e, plain, snap_on_release)
        | inr ssd ↦ rw (e, ssd, target, snap_on_release)
      ]
    ])

half-bound : (v : ℤ) → pos 0 <ℤ v → (pos 0 ≤ℤ v /ℤ 2) × (v /ℤ 2 +ℤ v /ℤ 2 ≤ℤ v)
unfolding ◌/ℤ◌ ◌+ℤ◌
half-bound v h = ground arith

-- Where the work area has a positive width, an edge asks for the whole of it or for a half: as
-- high as the area, inside its sides, and a half is at most half as wide.
pub snap_target-half :
    (wm : Wm) (r : Rect)
    → snap_target wm ≡ some r
    → pos 0 <ℤ (work_area wm).w
    → let a = work_area wm in
      (r.y ≡ a.y)
      × (r.h ≡ a.h)
      × (a.x ≤ℤ r.x)
      × (r.x +ℤ r.w ≤ℤ a.x +ℤ a.w)
      × ((r ≡ a) ⊎ (r.w +ℤ r.w ≤ℤ a.w))
unfolding snap_target
snap_target-half wm r e wide =
    let a = work_area wm in
    let (nonneg, twice) = half-bound a.w wide in
    elim (Bool-cases (leb_ℤ wm.cursor_y (pos snap_edge))) [
      | inl top ↦
          let p : r ≡ a = ground arith in rw p (refl, refl, omega arith, omega arith, inl refl)
      | inr low ↦ elim (Bool-cases (leb_ℤ wm.cursor_x (pos snap_edge))) [
        | inl left ↦
            let p : r ≡ record { x = a.x; y = a.y; w = a.w /ℤ 2; h = a.h } = ground arith in
            rw p (refl, refl, omega arith, omega int_laws, inr twice)
        | inr inner ↦ elim (Bool-cases (leb_ℤ (wm.screen_w -ℤ pos snap_edge) wm.cursor_x)) [
          | inl right ↦
              let p : r ≡ record { x = a.x +ℤ a.w -ℤ a.w /ℤ 2; y = a.y; w = a.w /ℤ 2; h = a.h } =
                ground arith in
              rw p (refl, refl, omega int_laws, omega int_laws, inr twice)
          | inr away ↦ absurd (ground arith)
        ]
      ]
    ]
