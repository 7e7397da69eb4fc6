-- ===== src/Compositor.antt =====
-- src/server.c: the software compositor. A framebuffer is its size and its pixels; a write at a
-- place that is not in it has no result. The client's pixels are read through `read`, from the
-- address of a mapping and an offset in bytes.
pub mod Fill
pub mod Safety
pub mod Painting
pub mod Scene
pub mod Tests
use crystalline_lattice.Common.{
  ℕ, zero, suc, ◌+◌, ◌-◌, ◌*◌, ◌/◌, ◌%◌, ◌^◌, ◌==◌, Bool, true, false, not, ◌&&◌, ◌||◌, Option,
  none, some, List, [], ◌∷◌, if◌then◌else◌, ℤ, pos, pos_part, neg_part, ◌+ℤ◌, ◌-ℤ◌, ltb_ℤ, leb_ℤ,
  eqb_ℤ, get_or, length,
}
use crystalline_lattice.Window.{Window, WindowStack, has_ssd, decor_titlebar_h}
use crystalline_lattice.Wm.{Wm}
use crystalline_lattice.Transport.{Cursor}

-- `struct dumb_fb`, less its handles.
pub record Frame : Type 0 where
  pub w : ℤ
  pub h : ℤ
  pub pixels : ℤ → ℤ → ℕ

abbrev pub color_desktop : ℕ
color_desktop = 0x00101820

abbrev pub color_tb_focus : ℕ
color_tb_focus = 0x003a6fd0

abbrev pub color_tb_plain : ℕ
color_tb_plain = 0x00606060

abbrev pub in_frame : Frame → ℤ → ℤ → Bool
in_frame f x y = leb_ℤ (pos 0) x && ltb_ℤ x f.w && leb_ℤ (pos 0) y && ltb_ℤ y f.h

abbrev pub paint : Frame → ℤ → ℤ → ℕ → Frame
paint f x y c = record f { pixels = λ a b. if eqb_ℤ a x && eqb_ℤ b y then c else f.pixels a b }

-- `row[x] = c`, with `row` the row `y` of the map.
unfoldable pub put : ℤ → ℤ → ℕ → Frame → Option Frame
put x y c f = if in_frame f x y then some (paint f x y c) else none

unfoldable pub bind : Option Frame → (Frame → Option Frame) → Option Frame
bind none k = none
bind (some f) k = k f

-- The inner loop of `fill_rect`, from the column `x` on, with `n` columns to go.
unfoldable pub fill_span : ℕ → ℤ → ℤ → ℕ → Frame → Option Frame
fill_span zero x y c f = some f
fill_span (suc n) x y c f = bind (put x y c f) (fill_span n (x +ℤ pos 1) y c)

unfoldable pub fill_rows : ℕ → ℕ → ℤ → ℤ → ℕ → Frame → Option Frame
fill_rows zero width x y c f = some f
fill_rows (suc n) width x y c f =
    bind (fill_span width x y c f) (fill_rows n width x (y +ℤ pos 1) c)

-- `v < 0 ? 0 : v`, and the end that is not past the limit.
abbrev pub from_zero : ℤ → ℤ
from_zero v = if ltb_ℤ v (pos 0) then pos 0 else v

abbrev pub up_to : ℤ → ℤ → ℤ
up_to limit v = if ltb_ℤ limit v then limit else v

unfoldable pub fill_rect : ℤ → ℤ → ℤ → ℤ → ℕ → Frame → Option Frame
fill_rect x y w h color f =
    let x0 = from_zero x in
    let y0 = from_zero y in
    let x1 = up_to f.w (x +ℤ w) in
    let y1 = up_to f.h (y +ℤ h) in
    fill_rows (pos_part (y1 -ℤ y0)) (pos_part (x1 -ℤ x0)) x0 y0 color f

-- A write that is skipped outside the framebuffer.
unfoldable pub put_inside : ℤ → ℤ → ℕ → Frame → Option Frame
put_inside x y c f =
    if ltb_ℤ x (pos 0) || leb_ℤ f.w x || ltb_ℤ y (pos 0) || leb_ℤ f.h y then some f else put x y c f

-- `n` rounds of a loop from the counter `i` on.
unfoldable pub rounds : ℕ → ℕ → (ℕ → Frame → Option Frame) → Frame → Option Frame
rounds zero i body f = some f
rounds (suc n) i body f = bind (body i f) (rounds n (suc i) body)

abbrev pub min_ℤ : ℤ → ℤ → ℤ
min_ℤ a b = if ltb_ℤ a b then a else b

-- `(size_t)r * stride`, as an offset.
abbrev pub row_offset : ℕ → ℤ → ℤ
row_offset r stride = pos (r * pos_part stride) -ℤ pos (r * neg_part stride)

module _ (read : ℕ → ℤ → ℕ) where
  unfoldable pub blit_buffer : Window → ℕ → ℤ → Frame → Option Frame
  blit_buffer v base cy0 =
      let height = min_ℤ (v.h -ℤ cy0) v.buf_h in
      let width = min_ℤ v.w v.buf_w in
      rounds (pos_part height) 0 (λ r. rounds (pos_part width) 0 (λ c.
        put_inside (v.x +ℤ pos c) (v.y +ℤ cy0 +ℤ pos r)
          (read base (row_offset r v.buf_stride +ℤ pos (4 * c)))))

-- One channel, from bit `shift` on, blended over what is there.
abbrev pub blend_channel : ℕ → ℕ → ℕ → ℕ → ℕ
blend_channel shift px d a = ((px / 2 ^ shift % 256) * a + (d / 2 ^ shift % 256) * (255 - a)) / 255

-- What the pixel `px` of a cursor with straight alpha leaves of the pixel `d`.
unfoldable pub blend : ℕ → ℕ → ℕ
blend px d =
    let a = px / 2 ^ 24 % 256 in
    if a == 0
    then d
    else if a == 255
    then px % 2 ^ 24
    else blend_channel 16 px d a * 2 ^ 16 + blend_channel 8 px d a * 2 ^ 8 + blend_channel 0 px d a

unfoldable pub draw_shape : ℤ → ℤ → Cursor → Frame → Option Frame
draw_shape cx cy cur = rounds (pos_part cur.h) 0 (λ r. rounds (pos_part cur.w) 0 (λ c f.
    let x = cx -ℤ cur.hotspot_x +ℤ pos c in
    let y = cy -ℤ cur.hotspot_y +ℤ pos r in
    put_inside x y (blend (get_or cur.argb (r * pos_part cur.w + c) 0) (f.pixels x y)) f))

abbrev ink : ℕ
ink = b'X'

abbrev fill : ℕ
fill = b'.'

abbrev pub gap : ℕ
gap = b' '

-- `CURSOR`
abbrev pub arrow : List (List ℕ)
arrow =
    (ink ∷ gap ∷ gap ∷ gap ∷ gap ∷ gap ∷ gap ∷ gap ∷ gap ∷ gap ∷ gap ∷ [])
    ∷ (ink ∷ ink ∷ gap ∷ gap ∷ gap ∷ gap ∷ gap ∷ gap ∷ gap ∷ gap ∷ gap ∷ [])
    ∷ (ink ∷ fill ∷ ink ∷ gap ∷ gap ∷ gap ∷ gap ∷ gap ∷ gap ∷ gap ∷ gap ∷ [])
    ∷ (ink ∷ fill ∷ fill ∷ ink ∷ gap ∷ gap ∷ gap ∷ gap ∷ gap ∷ gap ∷ gap ∷ [])
    ∷ (ink ∷ fill ∷ fill ∷ fill ∷ ink ∷ gap ∷ gap ∷ gap ∷ gap ∷ gap ∷ gap ∷ [])
    ∷ (ink ∷ fill ∷ fill ∷ fill ∷ fill ∷ ink ∷ gap ∷ gap ∷ gap ∷ gap ∷ gap ∷ [])
    ∷ (ink ∷ fill ∷ fill ∷ fill ∷ fill ∷ fill ∷ ink ∷ gap ∷ gap ∷ gap ∷ gap ∷ [])
    ∷ (ink ∷ fill ∷ fill ∷ fill ∷ fill ∷ fill ∷ fill ∷ ink ∷ gap ∷ gap ∷ gap ∷ [])
    ∷ (ink ∷ fill ∷ fill ∷ fill ∷ fill ∷ fill ∷ fill ∷ fill ∷ ink ∷ gap ∷ gap ∷ [])
    ∷ (ink ∷ fill ∷ fill ∷ fill ∷ fill ∷ ink ∷ ink ∷ ink ∷ ink ∷ ink ∷ gap ∷ [])
    ∷ (ink ∷ fill ∷ fill ∷ ink ∷ fill ∷ fill ∷ ink ∷ gap ∷ gap ∷ gap ∷ gap ∷ [])
    ∷ (ink ∷ fill ∷ ink ∷ gap ∷ ink ∷ fill ∷ fill ∷ ink ∷ gap ∷ gap ∷ gap ∷ [])
    ∷ (ink ∷ ink ∷ gap ∷ gap ∷ gap ∷ ink ∷ fill ∷ fill ∷ ink ∷ gap ∷ gap ∷ [])
    ∷ (ink ∷ gap ∷ gap ∷ gap ∷ gap ∷ ink ∷ fill ∷ fill ∷ ink ∷ gap ∷ gap ∷ [])
    ∷ (gap ∷ gap ∷ gap ∷ gap ∷ gap ∷ gap ∷ ink ∷ fill ∷ fill ∷ ink ∷ gap ∷ [])
    ∷ (gap ∷ gap ∷ gap ∷ gap ∷ gap ∷ gap ∷ gap ∷ ink ∷ ink ∷ gap ∷ gap ∷ [])
    ∷ []

-- The arrow: the outline is black, what is inside it white, and the rest is left.
unfoldable pub draw_arrow : ℤ → ℤ → Frame → Option Frame
draw_arrow cx cy = rounds (length arrow) 0 (λ r. rounds (length (get_or arrow r [])) 0 (λ c f.
    let p = get_or (get_or arrow r []) c 0 in
    if p == gap
    then some f
    else put_inside (cx +ℤ pos c) (cy +ℤ pos r) (if p == ink then 0 else 0x00ffffff) f))

unfoldable pub draw_cursor : ℤ → ℤ → Option Cursor → Frame → Option Frame
draw_cursor cx cy none f = draw_arrow cx cy f
draw_cursor cx cy (some cur) f =
    if cur.hidden then some f else if cur.custom then draw_shape cx cy cur f else draw_arrow cx cy f

module _ (read : ℕ → ℤ → ℕ) where
  -- The content of a window, below `cy0`.
  unfoldable pub draw_content : Window → ℤ → Frame → Option Frame
  draw_content v cy0 f =
      bind (fill_rect v.x (v.y +ℤ cy0) v.w (v.h -ℤ cy0) v.color f)
        (λ f'. elim v.buf [ none ↦ some f' | some base ↦ blit_buffer read v base cy0 f' ])

  unfoldable pub draw_window : ℕ → Window → Frame → Option Frame
  draw_window focus_id v f =
      let bar = if v.id == focus_id then color_tb_focus else color_tb_plain in
      if not v.mapped
      then some f
      else if has_ssd v
      then bind (fill_rect v.x v.y v.w (pos decor_titlebar_h) bar f)
          (draw_content v (pos decor_titlebar_h))
      else draw_content v (pos 0) f

  -- The loop over the stack, bottom first.
  unfoldable pub draw_windows : ℕ → List Window → Frame → Option Frame
  draw_windows focus_id [] f = some f
  draw_windows focus_id (v ∷ ws) f = bind (draw_window focus_id v f) (draw_windows focus_id ws)

  unfoldable pub composite : Wm → Option Cursor → Frame → Option Frame
  composite wm cur f = bind (fill_rect (pos 0) (pos 0) f.w f.h color_desktop f) (λ f'.
      bind (draw_windows wm.stack.focus_id wm.stack.windows f')
        (draw_cursor wm.cursor_x wm.cursor_y cur))
