-- ===== src/Window/Turns.antt =====
-- `window_focus_cycle` of src/window.c: in which round of the loop each place is looked at.
use crystalline_lattice.Common.{
  ℕ, zero, suc, ◌+◌, ◌-◌, ◌%◌, ◌≤◌, ◌<◌, ◌≡◌, ap, ◌∙◌, Bool, true, false, Option, none, some, arith,
  pos, pos_part, negsuc, ◌+ℤ◌, ◌-ℤ◌, ◌%ℤ◌,
}
use native.Mathlib.Nat.{zero-mod, mod-lt, mod-mod, mod-one, mod_self, mod-eq_of_lt, add-mod_right}
use native.Mathlib.Decide.{dec_le}
use crystalline_lattice.Window.{start_of, cycle_index}

-- One past the start: 0 where no window has the focus.
abbrev pub base : Option ℕ → ℕ
base none = 0
base (some i) = suc i

pos-%ℤ : (m c : ℕ) → pos m %ℤ c ≡ pos (m % c)
unfolding ◌%ℤ◌
pos-%ℤ m c = ground (arith, zero-mod c)

pos-+ℤ : (m n : ℕ) → pos m +ℤ pos n ≡ pos (m + n)
unfolding ◌+ℤ◌
pos-+ℤ m n = ground arith

negsuc-%ℤ : (m c : ℕ) → 0 < c → (negsuc m %ℤ c) +ℤ pos c ≡ pos (c - suc m % c)
unfolding ◌%ℤ◌ ◌+ℤ◌
negsuc-%ℤ m c h = ground (arith, zero-mod c, mod-lt (suc m) h)

-- `(shifted % count + count) % count` is the place of `shifted`, going round.
wrap_pos : (m c : ℕ) → pos_part ((pos m %ℤ c +ℤ pos c) %ℤ c) ≡ m % c
wrap_pos m c = rw (pos-%ℤ, pos-+ℤ, pos-%ℤ) (add-mod_right (m % c) c ∙ mod-mod m c)

wrap_negsuc : (m c : ℕ) → 0 < c → pos_part ((negsuc m %ℤ c +ℤ pos c) %ℤ c) ≡ (c - suc m % c) % c
wrap_negsuc m c h = rw (negsuc-%ℤ m c h, pos-%ℤ)

-- Forward, the entry looked at in a round lies that far above the start, going round at the top.
pub cycle_index-forward :
    (o : Option ℕ) (n c : ℕ) → cycle_index (start_of o) true (suc n) c ≡ (base o + n) % c
unfolding cycle_index
cycle_index-forward none n c =
    let e : negsuc 0 +ℤ pos (suc n) ≡ pos (0 + n) = unfold ◌+ℤ◌ in ground arith in
    rw e (wrap_pos (0 + n) c)
cycle_index-forward (some i) n c =
    let e : pos i +ℤ pos (suc n) ≡ pos (suc i + n) = unfold ◌+ℤ◌ in ground arith in
    rw e (wrap_pos (suc i + n) c)

-- Backward, it lies that far below: first down to the bottom, and then from the top down.
pub backward_near :
    (o : Option ℕ) (n c : ℕ)
    → n + 2 ≤ base o
    → cycle_index (start_of o) false (suc n) c ≡ (base o - (n + 2)) % c
unfolding cycle_index
backward_near none n c h = absurd (omega arith)
backward_near (some i) n c h =
    let e : pos i -ℤ pos (suc n) ≡ pos (suc i - (n + 2)) = unfold ◌-ℤ◌ in ground arith in
    rw e (wrap_pos (suc i - (n + 2)) c)

pub backward_far :
    (o : Option ℕ) (n c : ℕ)
    → base o < n + 2
    → 0 < c
    → cycle_index (start_of o) false (suc n) c ≡ (c - (n + 2 - base o) % c) % c
unfolding cycle_index
backward_far none n c h p =
    let e : negsuc 0 -ℤ pos (suc n) ≡ negsuc (suc n) = unfold ◌-ℤ◌ in ground arith in
    rw e (wrap_negsuc (suc n) c p ∙ ap (λ (k : ℕ). (c - k % c) % c) (omega arith))
backward_far (some i) n c h p =
    let e : pos i -ℤ pos (suc n) ≡ negsuc (n - i) = unfold ◌-ℤ◌ in ground arith in
    rw e (wrap_negsuc (n - i) c p ∙ ap (λ (k : ℕ). (c - k % c) % c) (omega arith))

-- The round in which an entry is looked at.
unfoldable pub Visits : Option ℕ → Bool → ℕ → ℕ → Type 0
Visits o forward c j = (n : ℕ) × (n < c) × (cycle_index (start_of o) forward (suc n) c ≡ j)

forward-Visits : (o : Option ℕ) (c j : ℕ) → base o ≤ c → j < c → Visits o true c j
unfolding Visits
forward-Visits o c j b h = elim (dec_le (base o) j) [
  | yes up ↦ (
    j - base o,
    omega arith,
    cycle_index-forward o (j - base o) c ∙ ap (λ (k : ℕ). k % c) (omega arith) ∙ mod-eq_of_lt h,
  )
  | no down ↦ (
    j + c - base o,
    omega arith,
    cycle_index-forward o (j + c - base o) c
        ∙ ap (λ (k : ℕ). k % c) (omega arith)
        ∙ add-mod_right j c
        ∙ mod-eq_of_lt h,
  )
]

-- `c - k % c` for the `k` that occur.
round_down : (c j : ℕ) → j < c → (c - (c - j) % c) % c ≡ j
round_down c zero h = let e : c - zero ≡ c = omega arith in rw (e, mod_self c, e) (mod_self c)
round_down c (suc j) h =
    let small : c - suc j < c = omega arith in
    let back : c - (c - suc j) ≡ suc j = omega arith in
    rw (mod-eq_of_lt small, back) (mod-eq_of_lt h)

-- The top entry comes last where no window has the focus: every entry is above it, going round.
round_top : (c j : ℕ) → c ≡ suc j → (c - (1 + c) % c) % c ≡ j
round_top c zero e = rw e (mod-one (1 - (1 + 1) % 1))
round_top c (suc j) e =
    let h : 1 < c = omega arith in
    let small : c - 1 < c = omega arith in
    rw (add-mod_right 1 c, mod-eq_of_lt h, mod-eq_of_lt small) (omega arith)

backward-Visits : (o : Option ℕ) (c j : ℕ) → base o ≤ c → j < c → Visits o false c j
unfolding Visits
backward-Visits o c j b h = elim (dec_le (j + 2) (base o)) [
  | yes down ↦ (
    base o - (j + 2),
    omega arith,
    backward_near o (base o - (j + 2)) c (omega arith)
        ∙ ap (λ (k : ℕ). k % c) (omega arith)
        ∙ mod-eq_of_lt h,
  )
  | no up ↦ elim (dec_le (j + 2) (base o + c)) [
    | yes inside ↦ (
      base o + c - (j + 2),
      omega arith,
      backward_far o (base o + c - (j + 2)) c (omega arith) (omega arith)
          ∙ ap (λ (k : ℕ). (c - k % c) % c) (omega arith)
          ∙ round_down c j h,
    )
    | no top ↦ (
      c - 1,
      omega arith,
      backward_far o (c - 1) c (omega arith) (omega arith)
          ∙ ap (λ (k : ℕ). (c - k % c) % c) (omega arith)
          ∙ round_top c j (omega arith),
    )
  ]
]

pub every-Visits :
    (o : Option ℕ) (forward : Bool) (c j : ℕ) → base o ≤ c → j < c → Visits o forward c j
every-Visits o true c j b h = forward-Visits o c j b h
every-Visits o false c j b h = backward-Visits o c j b h
