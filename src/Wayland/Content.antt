-- ===== src/Wayland/Content.antt =====
-- src/wayland.c: the copy that the frontend takes of a client's buffer.
use crystalline_lattice.Common.{
  ℕ, zero, suc, ◌+◌, ◌-◌, ◌*◌, ◌≤◌, ◌<◌, ◌≡◌, refl, ◌∙◌, ◌⊎◌, false, ◌&&◌, ◌||◌, some, arith,
  Bool-cases, inl, inr, pos, eqb_ℤ, leb_ℤ, eqb_ℤ→eq,
}
use crystalline_lattice.Wayland.{
  ShmBuffer, FeSurface, memcpy, copy_rows, fill_content, copy_shm_buffer,
}

memcpy_inside :
    (dst : ℕ → ℕ) (d : ℕ) (src : ℕ → ℕ) (o n k : ℕ)
    → k < n
    → memcpy dst d src o n (d + k) ≡ src (o + k)
unfolding memcpy
memcpy_inside dst d src o n k h =
    let same : d + k - d ≡ k = omega arith in rw same (ground (arith, h))

memcpy_outside :
    (dst : ℕ → ℕ) (d : ℕ) (src : ℕ → ℕ) (o n i : ℕ)
    → (i < d) ⊎ (d + n ≤ i)
    → memcpy dst d src o n i ≡ dst i
unfolding memcpy
memcpy_outside dst d src o n i h = ground (arith, h)

next_row : (y w : ℕ) → suc y * w * 4 ≡ y * w * 4 + w * 4
next_row y w = omega arith

copy_rows-before :
    (rows y w stride : ℕ) (src dst : ℕ → ℕ) (i : ℕ)
    → i < y * w * 4
    → copy_rows rows y w stride src dst i ≡ dst i
unfolding copy_rows
copy_rows-before zero y w stride src dst i h = refl
copy_rows-before (suc rows) y w stride src dst i h =
    copy_rows-before rows (suc y) w stride src _ i (omega (arith, next_row y w))
    ∙ memcpy_outside dst (y * w * 4) src (y * stride) (w * 4) i (inl h)

copy_rows-after :
    (rows y w stride : ℕ) (src dst : ℕ → ℕ) (i : ℕ)
    → (y + rows) * w * 4 ≤ i
    → copy_rows rows y w stride src dst i ≡ dst i
unfolding copy_rows
copy_rows-after zero y w stride src dst i h = refl
copy_rows-after (suc rows) y w stride src dst i h =
    copy_rows-after rows (suc y) w stride src _ i (omega (arith, h))
    ∙ memcpy_outside dst (y * w * 4) src (y * stride) (w * 4) i (inr (omega (arith, h)))

copy_rows-row :
    (rows y r w stride : ℕ) (src dst : ℕ → ℕ) (k : ℕ)
    → r < rows
    → k < w * 4
    → copy_rows rows y w stride src dst ((y + r) * w * 4 + k) ≡ src ((y + r) * stride + k)
unfolding copy_rows
copy_rows-row zero y r w stride src dst k below inside = absurd (omega arith)
copy_rows-row (suc rows) y zero w stride src dst k below inside =
    let first : y + 0 ≡ y = omega arith in
    rw first (
      copy_rows-before rows (suc y) w stride src _ (y * w * 4 + k) (omega (arith, next_row y w))
      ∙ memcpy_inside dst (y * w * 4) src (y * stride) (w * 4) k inside)
copy_rows-row (suc rows) y (suc r) w stride src dst k below inside =
    let later : y + suc r ≡ suc y + r = omega arith in
    rw later (copy_rows-row rows (suc y) r w stride src _ k (omega arith) inside)

fill_content-copy :
    (b : ShmBuffer) (s : FeSurface) (w h r k : ℕ)
    → b.width ≡ pos w
    → b.height ≡ pos h
    → r < h
    → k < w * 4
    → (fill_content b s).bytes (r * w * 4 + k) ≡ b.pixels (r * b.stride + k)
unfolding fill_content
fill_content-copy b s w h r k ew eh below inside =
    let at_zero : 0 + r ≡ r = omega arith in
    rw (ew, eh) (simp at_zero at (copy_rows-row h 0 r w b.stride b.pixels s.bytes k below inside))

fill_content-past :
    (b : ShmBuffer) (s : FeSurface) (w h i : ℕ)
    → b.width ≡ pos w
    → b.height ≡ pos h
    → h * w * 4 ≤ i
    → (fill_content b s).bytes i ≡ s.bytes i
unfolding fill_content
fill_content-past b s w h i ew eh past =
    rw (ew, eh) (copy_rows-after h 0 w b.stride b.pixels s.bytes i (omega (arith, past)))

-- Where `copy_shm_buffer` has a buffer of `w` by `h` pixels, at least one, and memory of its size,
-- the surface's content has the buffer's size; byte `k` of each row `r` of the content is byte
-- `k` of that row of the buffer, whatever the buffer's stride; and no byte `i` past the end of
-- the content is written.
pub copy_shm_buffer_lem :
    (grown : ℕ) (b : ShmBuffer) (s : FeSurface) (w h r k i : ℕ)
    → b.width ≡ pos w
    → b.height ≡ pos h
    → r < h
    → k < w * 4
    → h * w * 4 ≤ i
    → let s' = copy_shm_buffer (some grown) b s in
      ((s'.cw ≡ b.width) × (s'.ch ≡ b.height))
      × (s'.bytes (r * w * 4 + k) ≡ b.pixels (r * b.stride + k))
      × (s'.bytes i ≡ s.bytes i)
unfolding copy_shm_buffer
copy_shm_buffer_lem grown b s w h r k i ew eh below inside past =
    let shown : (leb_ℤ b.width (pos 0) || leb_ℤ b.height (pos 0)) ≡ false =
      rw (ew, eh) (ground (arith, below, inside)) in
    elim (Bool-cases (eqb_ℤ s.cw b.width && eqb_ℤ s.ch b.height)) [
      | inl same ↦
          rw (shown, same)
            (
              unfold fill_content in
                  (
                    eqb_ℤ→eq s.cw b.width (ground (arith, same)),
                    eqb_ℤ→eq s.ch b.height (ground (arith, same)),
                  ),
              fill_content-copy b s w h r k ew eh below inside,
              fill_content-past b s w h i ew eh past,
            )
      | inr other ↦
          rw (shown, other)
            (
              unfold fill_content in (refl, refl),
              fill_content-copy b _ w h r k ew eh below inside,
              fill_content-past b _ w h i ew eh past,
            )
    ]
