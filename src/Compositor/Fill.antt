-- ===== src/Compositor/Fill.antt =====
-- `fill_rect` of src/server.c paints the part of a rectangle that is on the framebuffer.
use crystalline_lattice.Common.{
  ℕ, zero, suc, ◌<◌, ◌≡◌, refl, ap, ◌∙◌, ◌==◌, ◌⊎◌, Bool, true, false, ◌&&◌, Option, some, arith,
  if◌then◌else◌, Bool-cases, inl, inr, ℤ, pos, pos_part, ◌+ℤ◌, ◌-ℤ◌, ◌≤ℤ◌, ◌<ℤ◌, ltb_ℤ, leb_ℤ,
  eqb_ℤ, +ℤ_parts, -ℤ_parts, int_laws,
}
use crystalline_lattice.Compositor.{
  Frame, in_frame, paint, put, bind, fill_span, fill_rows, fill_rect, from_zero, up_to,
}

-- A result: every write was inside the framebuffer, and the pixels that pass the test are the
-- color, all others as before.
abbrev pub Painted : Frame → (ℤ → ℤ → Bool) → ℕ → Option Frame → Type 0
Painted f test c o =
    (f' : Frame) × (o ≡ some f')
    × (f'.w ≡ f.w)
    × (f'.h ≡ f.h)
    × ((a b : ℤ) → f'.pixels a b ≡ (if test a b then c else f.pixels a b))

abbrev in_span : ℕ → ℤ → ℤ → ℤ → ℤ → Bool
in_span n x y a b = leb_ℤ x a && ltb_ℤ a (x +ℤ pos n) && eqb_ℤ b y

next_column : (x a : ℤ) → eqb_ℤ a x ≡ false → leb_ℤ (x +ℤ pos 1) a ≡ leb_ℤ x a
next_column x a ne = ground (arith, +ℤ_parts x (pos 1))

same_end : (n : ℕ) (x a : ℤ) → ltb_ℤ a (x +ℤ pos 1 +ℤ pos n) ≡ ltb_ℤ a (x +ℤ pos (suc n))
same_end n x a =
    ground (arith, +ℤ_parts x (pos (suc n)), +ℤ_parts x (pos 1), +ℤ_parts (x +ℤ pos 1) (pos n))

first_column :
    (n : ℕ) (x a : ℤ) → eqb_ℤ a x ≡ true → (leb_ℤ x a && ltb_ℤ a (x +ℤ pos (suc n))) ≡ true
first_column n x a e = ground (arith, +ℤ_parts x (pos (suc n)))

merge_tests :
    (p q r s e h : Bool) (c old : ℕ)
    → (h ≡ false → p ≡ r)
    → (q ≡ s)
    → (h ≡ true → (r && s) ≡ true)
    → (if p && q && e then c else if h && e then c else old) ≡ (if r && s && e then c else old)
merge_tests p q r s e h c old away same here = ground arith

-- One column more.
span_step :
    (n : ℕ) (x y a b : ℤ) (c old : ℕ)
    → (if in_span n (x +ℤ pos 1) y a b then c else if eqb_ℤ a x && eqb_ℤ b y then c else old)
      ≡ (if in_span (suc n) x y a b then c else old)
span_step n x y a b c old =
    merge_tests (leb_ℤ (x +ℤ pos 1) a) (ltb_ℤ a (x +ℤ pos 1 +ℤ pos n)) (leb_ℤ x a)
      (ltb_ℤ a (x +ℤ pos (suc n))) (eqb_ℤ b y) (eqb_ℤ a x) c old (next_column x a) (same_end n x a)
      (first_column n x a)

fill_span-Painted :
    (n : ℕ) (x y : ℤ) (c : ℕ) (f : Frame)
    → pos 0 ≤ℤ x
    → x +ℤ pos n ≤ℤ f.w
    → pos 0 ≤ℤ y
    → y <ℤ f.h
    → Painted f (in_span n x y) c (fill_span n x y c f)
unfolding fill_span bind
fill_span-Painted zero x y c f left right top bottom =
    (f, refl, refl, refl, λ a b. ground (arith, +ℤ_parts x (pos 0)))
fill_span-Painted (suc n) x y c f left right top bottom =
    let inside : in_frame f x y ≡ true = ground (arith, +ℤ_parts x (pos (suc n))) in
    let here : put x y c f ≡ some (paint f x y c) = unfold put in rw inside in
    let (f', e, w, h, seen) =
      fill_span-Painted n (x +ℤ pos 1) y c (paint f x y c) (omega int_laws) (omega int_laws) top
        bottom in
    rw (here) (f', e, w, h, λ a b. seen a b ∙ span_step n x y a b c (f.pixels a b))

abbrev in_rows : ℕ → ℕ → ℤ → ℤ → ℤ → ℤ → Bool
in_rows n width x y a b = leb_ℤ x a && ltb_ℤ a (x +ℤ pos width) && leb_ℤ y b && ltb_ℤ b (y +ℤ pos n)

fill_rows-Painted :
    (n width : ℕ) (x y : ℤ) (c : ℕ) (f : Frame)
    → pos 0 ≤ℤ x
    → x +ℤ pos width ≤ℤ f.w
    → pos 0 ≤ℤ y
    → y +ℤ pos n ≤ℤ f.h
    → Painted f (in_rows n width x y) c (fill_rows n width x y c f)
unfolding fill_rows bind
fill_rows-Painted zero width x y c f left right top bottom =
    (f, refl, refl, refl, λ a b. ground (arith, +ℤ_parts y (pos 0)))
fill_rows-Painted (suc n) width x y c f left right top bottom =
    let (f1, e1, w1, h1, seen1) = fill_span-Painted width x y c f left right top (omega int_laws) in
    let (f', e, w, h, seen) =
      fill_rows-Painted n width x (y +ℤ pos 1) c f1 left (rw w1 right) (omega int_laws)
        (rw h1 (omega int_laws)) in
    rw (e1) (
      f',
      e,
      w ∙ w1,
      h ∙ h1,
      λ a b.
          seen a b
          ∙ ground (
            arith,
            seen1 a b,
            +ℤ_parts y (pos (suc n)),
            +ℤ_parts y (pos 1),
            +ℤ_parts (y +ℤ pos 1) (pos n),
          ),
    )

-- The pixels of the rectangle, on the framebuffer.
abbrev pub in_rect : ℤ → ℤ → ℤ → ℤ → Frame → ℤ → ℤ → Bool
in_rect x y w h f a b =
    leb_ℤ x a && ltb_ℤ a (x +ℤ w) && leb_ℤ y b && ltb_ℤ b (y +ℤ h) && in_frame f a b

-- One side of the rectangle, clipped.
abbrev low : ℤ → ℤ
low x = from_zero x

abbrev extent : ℤ → ℤ → ℤ → ℕ
extent x w limit = pos_part (up_to limit (x +ℤ w) -ℤ from_zero x)

abbrev on_side : ℤ → ℤ → ℤ → ℤ → Bool
on_side x w limit a = leb_ℤ x a && ltb_ℤ a (x +ℤ w) && leb_ℤ (pos 0) a && ltb_ℤ a limit

low_bound : (x : ℤ) → pos 0 ≤ℤ low x
low_bound x = ground arith

extent_bound : (x w limit : ℤ) → 0 < extent x w limit → low x +ℤ pos (extent x w limit) ≤ℤ limit
extent_bound x w limit some_pixel = ground (
  arith,
  +ℤ_parts x w,
  -ℤ_parts (up_to limit (x +ℤ w)) (from_zero x),
  +ℤ_parts (low x) (pos (extent x w limit)),
)

side_lem :
    (x w limit a : ℤ)
    → 0 < extent x w limit
    → (leb_ℤ (low x) a && ltb_ℤ a (low x +ℤ pos (extent x w limit))) ≡ on_side x w limit a
side_lem x w limit a some_pixel = ground (
  arith,
  +ℤ_parts x w,
  -ℤ_parts (up_to limit (x +ℤ w)) (from_zero x),
  +ℤ_parts (low x) (pos (extent x w limit)),
)

no_side : (x w limit a : ℤ) → extent x w limit ≡ 0 → on_side x w limit a ≡ false
no_side x w limit a none_left = ground (
  arith,
  +ℤ_parts x w,
  -ℤ_parts (up_to limit (x +ℤ w)) (from_zero x),
  +ℤ_parts (low x) (pos (extent x w limit)),
)

empty_rows : (n : ℕ) (x y : ℤ) (c : ℕ) (f : Frame) → fill_rows n 0 x y c f ≡ some f
unfolding fill_rows fill_span bind
empty_rows zero x y c f = refl
empty_rows (suc n) x y c f = empty_rows n x (y +ℤ pos 1) c f

both_sides :
    (p q r s x1 x2 x3 x4 y1 y2 y3 y4 : Bool)
    → (p && q) ≡ (x1 && x2 && x3 && x4)
    → (r && s) ≡ (y1 && y2 && y3 && y4)
    → (p && q && r && s) ≡ (x1 && x2 && y1 && y2 && (x3 && x4 && y3 && y4))
both_sides p q r s x1 x2 x3 x4 y1 y2 y3 y4 e e' = ground arith

neither :
    (x1 x2 x3 x4 y1 y2 y3 y4 : Bool) (c old : ℕ)
    → ((x1 && x2 && x3 && x4) ≡ false) ⊎ ((y1 && y2 && y3 && y4) ≡ false)
    → old ≡ (if x1 && x2 && y1 && y2 && (x3 && x4 && y3 && y4) then c else old)
neither x1 x2 x3 x4 y1 y2 y3 y4 c old e = ground arith

unpainted :
    (x y w h : ℤ) (c : ℕ) (f : Frame) (a b : ℤ)
    → (on_side x w f.w a ≡ false) ⊎ (on_side y h f.h b ≡ false)
    → f.pixels a b ≡ (if in_rect x y w h f a b then c else f.pixels a b)
unpainted x y w h c f a b e =
    neither (leb_ℤ x a) (ltb_ℤ a (x +ℤ w)) (leb_ℤ (pos 0) a) (ltb_ℤ a f.w) (leb_ℤ y b)
      (ltb_ℤ b (y +ℤ h)) (leb_ℤ (pos 0) b) (ltb_ℤ b f.h) c (f.pixels a b) e

-- Whatever the rectangle and the size of the framebuffer, `fill_rect` writes inside the framebuffer alone, and
-- paints exactly the pixels that are both in the rectangle and on the framebuffer.
pub fill_rect-Painted :
    (x y w h : ℤ) (c : ℕ) (f : Frame) → Painted f (in_rect x y w h f) c (fill_rect x y w h c f)
unfolding fill_rect
fill_rect-Painted x y w h c f = elim (Bool-cases (extent x w f.w == 0)) [
  | inl e ↦
      let none_left : extent x w f.w ≡ 0 = ground arith in
      rw none_left (
        rw empty_rows (
          f,
          refl,
          refl,
          refl,
          λ a b. unpainted x y w h c f a b (inl (no_side x w f.w a none_left)),
        ))
  | inr e ↦ elim (Bool-cases (extent y h f.h == 0)) [
    | inl e' ↦
        let none_left : extent y h f.h ≡ 0 = ground arith in
        rw none_left (
          unfold fill_rows in
          (
            f,
            refl,
            refl,
            refl,
            λ a b. unpainted x y w h c f a b (inr (no_side y h f.h b none_left)),
          ))
    | inr e' ↦
        let wide : 0 < extent x w f.w = ground arith in
        let high : 0 < extent y h f.h = ground arith in
        let (f', e, w', h', seen) =
          fill_rows-Painted (extent y h f.h) (extent x w f.w) (low x) (low y) c f (low_bound x)
            (extent_bound x w f.w wide) (low_bound y) (extent_bound y h f.h high) in
        (
          f',
          e,
          w',
          h',
          λ a b.
              seen a b
              ∙ ap (λ (t : Bool). if t then c else f.pixels a b)
                  (both_sides (leb_ℤ (low x) a) (ltb_ℤ a (low x +ℤ pos (extent x w f.w)))
                    (leb_ℤ (low y) b) (ltb_ℤ b (low y +ℤ pos (extent y h f.h))) (leb_ℤ x a)
                    (ltb_ℤ a (x +ℤ w)) (leb_ℤ (pos 0) a) (ltb_ℤ a f.w) (leb_ℤ y b)
                    (ltb_ℤ b (y +ℤ h)) (leb_ℤ (pos 0) b) (ltb_ℤ b f.h) (side_lem x w f.w a wide)
                    (side_lem y h f.h b high)),
        )
  ]
]
