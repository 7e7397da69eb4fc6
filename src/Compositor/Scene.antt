-- ===== src/Compositor/Scene.antt =====
-- The scene that `composite` of src/server.c draws, and the hit test of src/window.c.
use crystalline_lattice.Common.{
  ℕ, ◌≡◌, refl, ap, ◌∙◌, true, none, some, List, [], ◌∷◌, arith, Bool-cases, Option-cases, inl, inr,
  All, ℤ, pos, +ℤ_parts,
}
use crystalline_lattice.Window
use crystalline_lattice.Window.{Window, has_ssd, contains, decor_titlebar_h}
use crystalline_lattice.Window.Hit.{is_hit, top_hit, at-top_hit}
use crystalline_lattice.Wm.{Wm}
use crystalline_lattice.Transport.{Cursor}
use crystalline_lattice.Compositor.{
  Frame, in_frame, draw_window, draw_windows, composite, draw_cursor, color_desktop,
}
use crystalline_lattice.Compositor.Painting.{
  IsPlain, shade, Shows, bind-Shows, filled, fill_rect-Shows, over, draw_window-Shows,
}

-- The windows drawn one over the other, bottom first.
paint_all : ℕ → List Window → ℤ → ℤ → ℕ → ℕ
paint_all focus_id [] a b old = old
paint_all focus_id (v ∷ ws) a b old = paint_all focus_id ws a b (over focus_id v a b old)

draw_windows-Shows :
    (read : ℕ → ℤ → ℕ) (focus_id : ℕ) (ws : List Window) (f : Frame)
    → All IsPlain ws
    → Shows f (paint_all focus_id ws) (draw_windows read focus_id ws f)
unfolding draw_windows paint_all
draw_windows-Shows read focus_id [] f plain = (f, refl, refl, refl, λ a b inside. refl)
draw_windows-Shows read focus_id (v ∷ ws) f (p, plain) =
    bind-Shows f (over focus_id v) (paint_all focus_id ws) (draw_window read focus_id v f)
      (draw_windows read focus_id ws) (draw_window-Shows read focus_id v f p)
      (λ f'. draw_windows-Shows read focus_id ws f' plain)

-- The window on top decides.
paint_all-top_hit :
    (focus_id : ℕ) (ws : List Window) (a b : ℤ) (old : ℕ)
    → paint_all focus_id ws a b old
      ≡ elim (top_hit a b ws) [ none ↦ old | some v ↦ shade focus_id v b ]
unfolding paint_all top_hit
paint_all-top_hit focus_id [] a b old = refl
paint_all-top_hit focus_id (v ∷ ws) a b old =
    let rest = paint_all-top_hit focus_id ws a b (over focus_id v a b old) in
    elim (Option-cases (top_hit a b ws)) [
      | inr (u, e) ↦ rest ∙ rw (e, top_hit) refl
      | inl e ↦
          rest
          ∙ rw (e, top_hit)
              (elim (Bool-cases (is_hit a b v)) [ inl h ↦ rw h refl | inr h ↦ rw h refl ])
    ]

desktop_inside :
    (f : Frame) (a b : ℤ) (old : ℕ)
    → in_frame f a b ≡ true
    → filled (pos 0) (pos 0) f.w f.h color_desktop a b old ≡ color_desktop
desktop_inside f a b old inside = ground (arith, inside, +ℤ_parts (pos 0) f.w, +ℤ_parts (pos 0) f.h)

-- What a pixel of the screen shows by the window stack alone: the window that `window_at` finds, in
-- its title bar or below it, or the desktop.
abbrev pub seen_at : Wm → ℤ → ℤ → ℕ
seen_at wm a b = elim (Window.at wm.stack a b) [
  | none ↦ color_desktop
  | some v ↦ shade wm.stack.focus_id v b
]

-- While no window has a buffer, no decorated window is lower than its title bar, and the cursor is
-- hidden, `composite` draws every pixel of the screen as the stack says: with the color of the
-- title bar or of the body of the very window that `window_at` finds there, and with the desktop's
-- where it finds none.
pub composite-seen :
    (read : ℕ → ℤ → ℕ) (wm : Wm) (cur : Cursor) (f : Frame) (a b : ℤ)
    → cur.hidden ≡ true
    → All IsPlain wm.stack.windows
    → in_frame f a b ≡ true
    → (f' : Frame) × (composite read wm (some cur) f ≡ some f') × (f'.pixels a b ≡ seen_at wm a b)
unfolding composite draw_cursor
composite-seen read wm cur f a b hidden plain inside =
    let windows = wm.stack.windows in
    let focus_id = wm.stack.focus_id in
    let desktop = filled (pos 0) (pos 0) f.w f.h color_desktop in
    let (f', drawn, _, _, seen) =
      bind-Shows f desktop (paint_all focus_id windows) _ _
        (fill_rect-Shows (pos 0) (pos 0) f.w f.h color_desktop f)
        (λ f1.
          bind-Shows f1 (paint_all focus_id windows) (λ a b old. old) _
            (draw_cursor wm.cursor_x wm.cursor_y (some cur))
            (draw_windows-Shows read focus_id windows f1 plain)
            (λ f2. (f2, simp hidden, refl, refl, λ a b inside. refl))) in
    (
      f',
      drawn,
      seen a b inside
          ∙ ap (paint_all focus_id windows a b) (desktop_inside f a b (f.pixels a b) inside)
          ∙ paint_all-top_hit focus_id windows a b color_desktop
          ∙ rw (at-top_hit a b wm.stack, seen_at) refl,
    )
