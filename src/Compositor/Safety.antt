-- ===== src/Compositor/Safety.antt =====
-- The compositor of src/server.c writes inside the framebuffer alone.
use crystalline_lattice.Common.{
  ℕ, zero, suc, ◌≡◌, refl, ◌∙◌, ◌==◌, Bool, true, false, not, ◌||◌, Option, none, some, List, [],
  ◌∷◌, arith, if◌then◌else◌, Bool-cases, Option-cases, inl, inr, ℤ, pos, pos_part, ◌+ℤ◌, ◌-ℤ◌,
  ltb_ℤ, leb_ℤ, get_or, length,
}
use crystalline_lattice.Window.{Window, has_ssd, decor_titlebar_h}
use crystalline_lattice.Wm.{Wm}
use crystalline_lattice.Transport.{Cursor}
use crystalline_lattice.Compositor.{
  Frame, in_frame, paint, put, bind, fill_rect, put_inside, rounds, blit_buffer, draw_shape, arrow,
  gap, draw_arrow, draw_cursor, draw_content, draw_window, draw_windows, composite, color_desktop,
}
use crystalline_lattice.Compositor.Fill.{fill_rect-Painted}

-- Every write was inside the framebuffer, which keeps its size.
abbrev pub IsSafe : Frame → Option Frame → Type 0
IsSafe f o = (f' : Frame) × (o ≡ some f') × (f'.w ≡ f.w) × (f'.h ≡ f.h)

bind-IsSafe :
    (f : Frame) (o : Option Frame) (k : Frame → Option Frame)
    → IsSafe f o
    → ((f' : Frame) → IsSafe f' (k f'))
    → IsSafe f (bind o k)
unfolding bind
bind-IsSafe f o k (f', e, w, h) next =
    let (f'', e', w', h') = next f' in rw e (f'', e', w' ∙ w, h' ∙ h)

fill_rect-IsSafe : (x y w h : ℤ) (c : ℕ) (f : Frame) → IsSafe f (fill_rect x y w h c f)
fill_rect-IsSafe x y w h c f =
    let (f', e, w', h', seen) = fill_rect-Painted x y w h c f in (f', e, w', h')

put_inside-IsSafe : (x y : ℤ) (c : ℕ) (f : Frame) → IsSafe f (put_inside x y c f)
unfolding put_inside put
put_inside-IsSafe x y c f =
    elim (Bool-cases (ltb_ℤ x (pos 0) || leb_ℤ f.w x || ltb_ℤ y (pos 0) || leb_ℤ f.h y)) [
      | inl out ↦ rw out (f, refl, refl, refl)
      | inr inside ↦
          let within : in_frame f x y ≡ true = ground arith in
          rw (inside, within) (paint f x y c, refl, refl, refl)
    ]

rounds-IsSafe :
    (n i : ℕ) (body : ℕ → Frame → Option Frame) (f : Frame)
    → ((j : ℕ) (f' : Frame) → IsSafe f' (body j f'))
    → IsSafe f (rounds n i body f)
unfolding rounds
rounds-IsSafe zero i body f safe = (f, refl, refl, refl)
rounds-IsSafe (suc n) i body f safe =
    bind-IsSafe f (body i f) (rounds n (suc i) body) (safe i f)
      (λ f'. rounds-IsSafe n (suc i) body f' safe)

either-IsSafe :
    (t : Bool) (f : Frame) (o o' : Option Frame)
    → IsSafe f o
    → IsSafe f o'
    → IsSafe f (if t then o else o')
either-IsSafe true f o o' a b = a
either-IsSafe false f o o' a b = b

draw_shape-IsSafe : (cx cy : ℤ) (cur : Cursor) (f : Frame) → IsSafe f (draw_shape cx cy cur f)
unfolding draw_shape
draw_shape-IsSafe cx cy cur f =
    rounds-IsSafe (pos_part cur.h) 0 _ f
      (λ r f'. rounds-IsSafe (pos_part cur.w) 0 _ f' (λ c f''. put_inside-IsSafe _ _ _ f''))

draw_arrow-IsSafe : (cx cy : ℤ) (f : Frame) → IsSafe f (draw_arrow cx cy f)
unfolding draw_arrow
draw_arrow-IsSafe cx cy f = rounds-IsSafe (length arrow) 0 _ f (λ r f'.
    rounds-IsSafe (length (get_or arrow r [])) 0 _ f' (λ c f''.
      either-IsSafe (get_or (get_or arrow r []) c 0 == gap) f'' (some f'') _ (f'', refl, refl, refl)
        (put_inside-IsSafe _ _ _ f'')))

draw_cursor-IsSafe :
    (cx cy : ℤ) (cur : Option Cursor) (f : Frame) → IsSafe f (draw_cursor cx cy cur f)
unfolding draw_cursor
draw_cursor-IsSafe cx cy none f = draw_arrow-IsSafe cx cy f
draw_cursor-IsSafe cx cy (some cur) f = elim (Bool-cases cur.hidden) [
  | inl e ↦ simp e (f, refl, refl, refl)
  | inr e ↦ elim (Bool-cases cur.custom) [
    | inl g ↦ simp (e, g) (draw_shape-IsSafe cx cy cur f)
    | inr g ↦ simp (e, g) (draw_arrow-IsSafe cx cy f)
  ]
]

module _ (read : ℕ → ℤ → ℕ) where
  blit_buffer-IsSafe :
      (v : Window) (base : ℕ) (cy0 : ℤ) (f : Frame) → IsSafe f (blit_buffer read v base cy0 f)
  unfolding blit_buffer
  blit_buffer-IsSafe v base cy0 f =
      rounds-IsSafe _ 0 _ f (λ r f'. rounds-IsSafe _ 0 _ f' (λ c f''. put_inside-IsSafe _ _ _ f''))

  draw_content-IsSafe : (v : Window) (cy0 : ℤ) (f : Frame) → IsSafe f (draw_content read v cy0 f)
  unfolding draw_content
  draw_content-IsSafe v cy0 f = elim (Option-cases v.buf) [
    | inl e ↦ rw e (
        bind-IsSafe f _ _ (fill_rect-IsSafe v.x (v.y +ℤ cy0) v.w (v.h -ℤ cy0) v.color f)
          (λ f'. (f', refl, refl, refl)))
    | inr (base, e) ↦ rw e (
        bind-IsSafe f _ _ (fill_rect-IsSafe v.x (v.y +ℤ cy0) v.w (v.h -ℤ cy0) v.color f)
          (λ f'. blit_buffer-IsSafe v base cy0 f'))
  ]

  draw_window-IsSafe :
      (focus_id : ℕ) (v : Window) (f : Frame) → IsSafe f (draw_window read focus_id v f)
  unfolding draw_window
  draw_window-IsSafe focus_id v f = elim (Bool-cases (not v.mapped)) [
    | inl e ↦ rw e (f, refl, refl, refl)
    | inr e ↦ elim (Bool-cases (has_ssd v)) [
      | inl g ↦
          rw (e, g)
            (bind-IsSafe f _ _ (fill_rect-IsSafe v.x v.y v.w (pos decor_titlebar_h) _ f)
              (λ f'. draw_content-IsSafe v (pos decor_titlebar_h) f'))
      | inr g ↦ rw (e, g) (draw_content-IsSafe v (pos 0) f)
    ]
  ]

  draw_windows-IsSafe :
      (focus_id : ℕ) (ws : List Window) (f : Frame) → IsSafe f (draw_windows read focus_id ws f)
  unfolding draw_windows
  draw_windows-IsSafe focus_id [] f = (f, refl, refl, refl)
  draw_windows-IsSafe focus_id (v ∷ ws) f =
      bind-IsSafe f _ _ (draw_window-IsSafe focus_id v f) (λ f'. draw_windows-IsSafe focus_id ws f')

  -- Whatever windows are on the stack, wherever they lie and whatever their buffers claim and
  -- hold, and wherever the cursor and its hotspot are, `composite` draws the whole scene without
  -- a write outside the framebuffer, whose size stays. What it reads of a buffer is not bounded
  -- here.
  pub composite-IsSafe :
      (wm : Wm) (cur : Option Cursor) (f : Frame) → IsSafe f (composite read wm cur f)
  unfolding composite
  composite-IsSafe wm cur f =
      bind-IsSafe f _ _ (fill_rect-IsSafe (pos 0) (pos 0) f.w f.h color_desktop f) (λ f'.
        bind-IsSafe f' _ _ (draw_windows-IsSafe wm.stack.focus_id wm.stack.windows f')
          (λ f''. draw_cursor-IsSafe wm.cursor_x wm.cursor_y cur f''))
