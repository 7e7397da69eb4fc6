-- ===== src/Compositor/Painting.antt =====
-- src/server.c: the pixels that one window leaves in the frame.
use crystalline_lattice.Common.{
  ℕ, ◌≡◌, refl, ap, sym, ◌∙◌, ◌==◌, Bool, true, false, ◌&&◌, Option, none, some, arith,
  if◌then◌else◌, Bool-cases, inl, inr, ℤ, pos, ◌+ℤ◌, ◌-ℤ◌, ltb_ℤ, leb_ℤ, +ℤ_parts, -ℤ_parts,
}
use crystalline_lattice.Window.{Window, has_ssd, contains, decor_titlebar_h}
use crystalline_lattice.Window.Hit.{is_hit}
use crystalline_lattice.Compositor.{
  Frame, in_frame, bind, fill_rect, draw_content, draw_window, color_tb_focus, color_tb_plain,
}
use crystalline_lattice.Compositor.Fill.{fill_rect-Painted}

-- A window without a buffer that is at least as high as its title bar.
abbrev pub IsPlain : Window → Type 0
IsPlain v = (v.buf ≡ none) × ((has_ssd v && ltb_ℤ v.h (pos decor_titlebar_h)) ≡ false)

-- What a window shows at a point of its rectangle.
abbrev pub shade : ℕ → Window → ℤ → ℕ
shade focus_id v b =
    if has_ssd v && ltb_ℤ b (v.y +ℤ pos decor_titlebar_h)
    then (if v.id == focus_id then color_tb_focus else color_tb_plain)
    else v.color

-- A result with each pixel of the frame as the function of the place and of the old pixel says.
abbrev pub Shows : Frame → (ℤ → ℤ → ℕ → ℕ) → Option Frame → Type 0
Shows f pixel o =
    (f' : Frame) × (o ≡ some f')
    × (f'.w ≡ f.w)
    × (f'.h ≡ f.h)
    × ((a b : ℤ) → in_frame f a b ≡ true → f'.pixels a b ≡ pixel a b (f.pixels a b))

bind-some : (o : Option Frame) (f : Frame) (k : Frame → Option Frame) → o ≡ some f → bind o k ≡ k f
unfolding bind
bind-some o f k e = rw e refl

-- Two results in a row.
pub bind-Shows :
    (f : Frame) (p q : ℤ → ℤ → ℕ → ℕ) (o : Option Frame) (k : Frame → Option Frame)
    → Shows f p o
    → ((f' : Frame) → Shows f' q (k f'))
    → Shows f (λ a b old. q a b (p a b old)) (bind o k)
bind-Shows f p q o k (f1, e1, w1, h1, s1) next =
    let (f2, e2, w2, h2, s2) = next f1 in
    (
      f2,
      bind-some o f1 k e1 ∙ e2,
      w2 ∙ w1,
      h2 ∙ h1,
      λ a b inside. s2 a b (rw (w1, h1) inside) ∙ ap (q a b) (s1 a b inside),
    )

kept : (p q : Bool) (c old : ℕ) → q ≡ true → (if p && q then c else old) ≡ (if p then c else old)
kept p q c old e = ground (arith, e)

-- The color in the rectangle, and the old pixel outside of it.
abbrev pub filled : ℤ → ℤ → ℤ → ℤ → ℕ → ℤ → ℤ → ℕ → ℕ
filled x y w h c a b old =
    if leb_ℤ x a && ltb_ℤ a (x +ℤ w) && leb_ℤ y b && ltb_ℤ b (y +ℤ h) then c else old

pub fill_rect-Shows :
    (x y w h : ℤ) (c : ℕ) (f : Frame) → Shows f (filled x y w h c) (fill_rect x y w h c f)
fill_rect-Shows x y w h c f =
    let (f', e, w', h', seen) = fill_rect-Painted x y w h c f in
    (f', e, w', h', λ a b inside. seen a b ∙ kept _ (in_frame f a b) c (f.pixels a b) inside)

-- The content of a plain window, below `cy0`, and the whole of one.
draw_content-Shows :
    (read : ℕ → ℤ → ℕ) (v : Window) (cy0 : ℤ) (f : Frame)
    → v.buf ≡ none
    → Shows f (filled v.x (v.y +ℤ cy0) v.w (v.h -ℤ cy0) v.color) (draw_content read v cy0 f)
unfolding draw_content
draw_content-Shows read v cy0 f bare = rw bare (
    bind-Shows f (filled v.x (v.y +ℤ cy0) v.w (v.h -ℤ cy0) v.color) (λ a b old. old) _ _
      (fill_rect-Shows v.x (v.y +ℤ cy0) v.w (v.h -ℤ cy0) v.color f)
      (λ f'. (f', refl, refl, refl, λ a b inside. refl)))

-- What a plain window makes of a pixel.
abbrev pub over : ℕ → Window → ℤ → ℤ → ℕ → ℕ
over focus_id v a b old = if is_hit a b v then shade focus_id v b else old

same_pixels :
    (f : Frame) (p q : ℤ → ℤ → ℕ → ℕ) (o : Option Frame)
    → ((a b : ℤ) (old : ℕ) → p a b old ≡ q a b old)
    → Shows f p o
    → Shows f q o
same_pixels f p q o same (f', e, w', h', seen) =
    (f', e, w', h', λ a b inside. seen a b inside ∙ same a b (f.pixels a b))

titled :
    (v : Window) (bar : ℕ) (a b : ℤ) (old : ℕ)
    → v.mapped ≡ true
    → ltb_ℤ v.h (pos decor_titlebar_h) ≡ false
    → filled v.x
        (v.y +ℤ pos decor_titlebar_h)
        v.w
        (v.h -ℤ pos decor_titlebar_h)
        v.color
        a
        b
        (filled v.x v.y v.w (pos decor_titlebar_h) bar a b old)
      ≡ (if is_hit a b v
          then (if ltb_ℤ b (v.y +ℤ pos decor_titlebar_h) then bar else v.color)
          else old)
unfolding contains
titled v bar a b old mapped high = rw mapped (
    ground (
      arith,
      high,
      +ℤ_parts v.y (pos decor_titlebar_h),
      +ℤ_parts v.y v.h,
      +ℤ_parts (v.y +ℤ pos decor_titlebar_h) (v.h -ℤ pos decor_titlebar_h),
      -ℤ_parts v.h (pos decor_titlebar_h),
    ))

untitled :
    (v : Window) (a b : ℤ) (old : ℕ)
    → v.mapped ≡ true
    → filled v.x (v.y +ℤ pos 0) v.w (v.h -ℤ pos 0) v.color a b old
      ≡ (if is_hit a b v then v.color else old)
unfolding contains
untitled v a b old mapped = rw mapped (
    ground (
      arith,
      +ℤ_parts v.y (pos 0),
      +ℤ_parts v.y v.h,
      +ℤ_parts (v.y +ℤ pos 0) (v.h -ℤ pos 0),
      -ℤ_parts v.h (pos 0),
    ))

same_result :
    (f : Frame) (p : ℤ → ℤ → ℕ → ℕ) (o o' : Option Frame) → o ≡ o' → Shows f p o' → Shows f p o
same_result f p o o' same (f', e, w', h', seen) = (f', same ∙ e, w', h', seen)

titled-over :
    (focus_id : ℕ) (v : Window) (a b : ℤ) (old : ℕ)
    → v.mapped ≡ true
    → has_ssd v ≡ true
    → ltb_ℤ v.h (pos decor_titlebar_h) ≡ false
    → filled v.x (v.y +ℤ pos decor_titlebar_h) v.w (v.h -ℤ pos decor_titlebar_h) v.color a b (
        filled v.x v.y v.w
          (pos decor_titlebar_h)
          (if v.id == focus_id then color_tb_focus else color_tb_plain)
          a
          b
          old)
      ≡ over focus_id v a b old
titled-over focus_id v a b old on ssd high =
    titled v _ a b old on high
    ∙ ap
        (λ (h : Bool).
          if is_hit a b v
          then (if h && ltb_ℤ b (v.y +ℤ pos decor_titlebar_h)
              then (if v.id == focus_id then color_tb_focus else color_tb_plain)
              else v.color)
          else old)
        (sym ssd)

untitled-over :
    (focus_id : ℕ) (v : Window) (a b : ℤ) (old : ℕ)
    → v.mapped ≡ true
    → has_ssd v ≡ false
    → filled v.x (v.y +ℤ pos 0) v.w (v.h -ℤ pos 0) v.color a b old ≡ over focus_id v a b old
untitled-over focus_id v a b old on plain =
    untitled v a b old on
    ∙ ap
        (λ (h : Bool).
          if is_hit a b v
          then (if h && ltb_ℤ b (v.y +ℤ pos decor_titlebar_h)
              then (if v.id == focus_id then color_tb_focus else color_tb_plain)
              else v.color)
          else old)
        (sym plain)

pub draw_window-Shows :
    (read : ℕ → ℤ → ℕ) (focus_id : ℕ) (v : Window) (f : Frame)
    → IsPlain v
    → Shows f (over focus_id v) (draw_window read focus_id v f)
unfolding draw_window
draw_window-Shows read focus_id v f (bare, high) = elim (Bool-cases v.mapped) [
  | inr off ↦
      same_result f (over focus_id v) _ (some f) (simp off)
        (f, refl, refl, refl, λ a b inside. rw off refl)
  | inl on ↦ elim (Bool-cases (has_ssd v)) [
    | inl ssd ↦
        let bar = if v.id == focus_id then color_tb_focus else color_tb_plain in
        let first = filled v.x v.y v.w (pos decor_titlebar_h) bar in
        let second =
          filled v.x (v.y +ℤ pos decor_titlebar_h) v.w (v.h -ℤ pos decor_titlebar_h) v.color in
        let done =
          bind (fill_rect v.x v.y v.w (pos decor_titlebar_h) bar f)
            (draw_content read v (pos decor_titlebar_h)) in
        let tall : ltb_ℤ v.h (pos decor_titlebar_h) ≡ false = rw ssd at high in
        same_result f (over focus_id v) _ done (simp (on, ssd)) (
          same_pixels f (λ a b old. second a b (first a b old)) (over focus_id v) done
            (λ a b old. titled-over focus_id v a b old on ssd tall)
            (bind-Shows f first second (fill_rect v.x v.y v.w (pos decor_titlebar_h) bar f)
              (draw_content read v (pos decor_titlebar_h))
              (fill_rect-Shows v.x v.y v.w (pos decor_titlebar_h) bar f)
              (λ f'. draw_content-Shows read v (pos decor_titlebar_h) f' bare)))
    | inr plain ↦
        same_result f (over focus_id v) _ (draw_content read v (pos 0) f) (simp (on, plain)) (
          same_pixels f (filled v.x (v.y +ℤ pos 0) v.w (v.h -ℤ pos 0) v.color) (over focus_id v) _
            (λ a b old. untitled-over focus_id v a b old on plain)
            (draw_content-Shows read v (pos 0) f bare))
  ]
]
