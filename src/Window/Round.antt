-- ===== src/Window/Round.antt =====
-- `window_focus_cycle` of src/window.c: the loop goes round the entries, one at a time.
use crystalline_lattice.Common.{
  ℕ, zero, suc, ◌+◌, ◌-◌, ◌%◌, ◌≤◌, ◌<◌, ◌≡◌, refl, sym, ap, ◌∙◌, Bool, true, false, Option, none,
  some, arith, ◌==◌, if◌then◌else◌, Bool-cases, inl, inr,
}
use native.Mathlib.Nat.{zero-mod, mod-lt, mod-one, mod_self, suc-mod, mod-eq_of_lt}
use native.Mathlib.Decide.{dec_le}
use crystalline_lattice.Window.{start_of, cycle_index}
use crystalline_lattice.Window.Turns.{base, cycle_index-forward, backward_near, backward_far}

-- The entry above or below one, going round.
abbrev pub neighbour : Bool → ℕ → ℕ → ℕ
neighbour true c i = if suc i == c then 0 else suc i
neighbour false c i = if i == 0 then c - 1 else i - 1

abbrev pub places_round : Bool → ℕ → ℕ → ℕ → ℕ
places_round up c zero i = i
places_round up c (suc n) i = neighbour up c (places_round up c n i)

-- Where the way round begins: at the focused entry, or at the top one where there is none.
abbrev pub origin : Option ℕ → ℕ → ℕ
origin none c = c - 1
origin (some i) c = i

suc-mod_turn : (k c : ℕ) → 0 < c → suc k % c ≡ neighbour true c (k % c)
suc-mod_turn k c h = elim (Bool-cases (suc (k % c) == c)) [
  | inl e ↦ let p : suc (k % c) ≡ c = ground (arith, e) in rw e (suc-mod k c ∙ rw p (mod_self c))
  | inr e ↦
      let p : suc (k % c) < c = ground (arith, e, mod-lt k h) in rw e (suc-mod k c ∙ mod-eq_of_lt p)
]

forward-places_round :
    (o : Option ℕ) (n c : ℕ)
    → 0 < c
    → base o ≤ c
    → (base o + n) % c ≡ places_round true c (suc n) (origin o c)
forward-places_round none zero c h b =
    let e : (suc (c - 1) == c) ≡ true = ground arith in rw e (zero-mod c)
forward-places_round (some i) zero c h b = elim (Bool-cases (suc i == c)) [
  | inl e ↦ let p : suc i + 0 ≡ c = ground (arith, e) in rw (e, p) (mod_self c)
  | inr e ↦ let p : suc i + 0 < c = ground (arith, e) in rw e (mod-eq_of_lt p ∙ omega arith)
]
forward-places_round o (suc n) c h b =
    ap (λ (k : ℕ). k % c) (omega arith)
    ∙ suc-mod_turn (base o + n) c h
    ∙ ap (neighbour true c) (forward-places_round o n c h b)

-- The place that lies `p` below the bottom, going round.
below_mod : (p c : ℕ) → 0 < c → (c - suc p % c) % c ≡ neighbour false c ((c - p % c) % c)
below_mod p c h =
    let r = p % c in
    let small : r < c = mod-lt p h in
    let next : suc p % c ≡ neighbour true c r = suc-mod_turn p c h in
    elim (Bool-cases (suc r == c)) [
      | inl e ↦
          let zero_next : suc p % c ≡ 0 = rw e at next in
          elim (Bool-cases (r == 0)) [
            | inl z ↦
                let one : c ≡ 1 = ground (arith, e, z) in
                rw (zero_next, one) (ground (arith, mod-one (1 - p % 1), mod_self 1))
            | inr nz ↦
                let last : (c - r) % c ≡ 1 =
                  mod-eq_of_lt (ground (arith, e, nz)) ∙ ground (arith, e) in
                rw (zero_next, last) (ap (λ (k : ℕ). k % c) (omega arith) ∙ mod_self c)
          ]
      | inr e ↦
          let up : suc p % c ≡ suc r = rw e at next in
          let step : (c - suc r) % c ≡ c - suc r = mod-eq_of_lt (ground (arith, e, small)) in
          elim (Bool-cases (r == 0)) [
            | inl z ↦
                let zero_r : r ≡ 0 = ground (arith, z) in
                let here : (c - r) % c ≡ 0 =
                  ap (λ (k : ℕ). (c - k) % c) zero_r
                  ∙ ap (λ (k : ℕ). k % c) (omega arith)
                  ∙ mod_self c in
                rw (up, step, here) (omega (arith, zero_r))
            | inr nz ↦
                let here : (c - r) % c ≡ c - r = mod-eq_of_lt (ground (arith, nz, small)) in
                let some_left : (c - r == 0) ≡ false = ground (arith, small) in
                rw (up, step, here, some_left) (omega (arith, small))
          ]
    ]

-- The entry `k` places down from the beginning: down to the bottom, and then from the top.
below : Option ℕ → ℕ → ℕ → ℕ
below o c k = elim (dec_le (k + 1) (base o)) [
  | yes near ↦ base o - (k + 1)
  | no far ↦ (c - (k + 1 - base o) % c) % c
]

below-near : (o : Option ℕ) (c k : ℕ) → k + 1 ≤ base o → below o c k ≡ base o - (k + 1)
unfolding below
below-near o c k h =
    elim (dec_le (k + 1) (base o))
      as (λ d.
        elim d [ yes near ↦ base o - (k + 1) | no far ↦ (c - (k + 1 - base o) % c) % c ]
        ≡ base o - (k + 1)) [ yes near ↦ refl | no far ↦ absurd (far h) ]

below-far : (o : Option ℕ) (c k : ℕ) → base o < k + 1 → below o c k ≡ (c - (k + 1 - base o) % c) % c
unfolding below
below-far o c k h =
    elim (dec_le (k + 1) (base o))
      as (λ d.
        elim d [ yes near ↦ base o - (k + 1) | no far ↦ (c - (k + 1 - base o) % c) % c ]
        ≡ (c - (k + 1 - base o) % c) % c) [ yes near ↦ absurd (omega arith) | no far ↦ refl ]

below-neighbour :
    (o : Option ℕ) (c k : ℕ)
    → 0 < c
    → base o ≤ c
    → below o c (suc k) ≡ neighbour false c (below o c k)
below-neighbour o c k h b = elim (dec_le (k + 2) (base o)) [
  | yes near ↦
      let more : (base o - (k + 1) == 0) ≡ false = ground (arith, near) in
      rw
        (below-near o c (suc k) (omega (arith, near)), below-near o c k (omega (arith, near)), more)
        (omega arith)
  | no out ↦ elim (dec_le (k + 1) (base o)) [
    | yes last ↦
        let at_end : below o c k ≡ 0 = below-near o c k last ∙ omega (arith, out, last) in
        let whole : (c - 0 % c) % c ≡ 0 =
          ap (λ (j : ℕ). (c - j) % c) (zero-mod c)
          ∙ ap (λ (j : ℕ). j % c) (omega arith)
          ∙ mod_self c in
        below-far o c (suc k) (omega (arith, out))
        ∙ ap (λ (j : ℕ). (c - j % c) % c) (omega (arith, out, last))
        ∙ below_mod 0 c h
        ∙ ap (neighbour false c) (whole ∙ sym at_end)
    | no far ↦
        below-far o c (suc k) (omega (arith, out))
        ∙ ap (λ (j : ℕ). (c - j % c) % c) (omega (arith, far))
        ∙ below_mod (k + 1 - base o) c h
        ∙ ap (neighbour false c) (sym (below-far o c k (omega (arith, far))))
  ]
]

below-origin : (o : Option ℕ) (c : ℕ) → 0 < c → below o c 0 ≡ origin o c
below-origin (some i) c h = below-near (some i) c 0 (omega arith) ∙ omega arith
below-origin none zero h = absurd (omega arith)
below-origin none (suc zero) h = below-far none 1 0 (omega arith)
below-origin none (suc (suc c)) h =
    let small : 1 % suc (suc c) ≡ 1 = mod-eq_of_lt (omega arith) in
    below-far none (suc (suc c)) 0 (omega arith)
    ∙ ap (λ (j : ℕ). (suc (suc c) - j) % suc (suc c)) small
    ∙ mod-eq_of_lt (omega arith)

below-places_round :
    (o : Option ℕ) (c k : ℕ)
    → 0 < c
    → base o ≤ c
    → below o c k ≡ places_round false c k (origin o c)
below-places_round o c zero h b = below-origin o c h
below-places_round o c (suc k) h b =
    below-neighbour o c k h b ∙ ap (neighbour false c) (below-places_round o c k h b)

-- The entry looked at in a round is the one that lies so many places from the beginning.
pub cycle_index-places_round :
    (o : Option ℕ) (forward : Bool) (n c : ℕ)
    → 0 < n
    → 0 < c
    → base o ≤ c
    → cycle_index (start_of o) forward n c ≡ places_round forward c n (origin o c)
cycle_index-places_round o forward zero c p h b = absurd (omega arith)
cycle_index-places_round o true (suc n) c p h b =
    cycle_index-forward o n c ∙ forward-places_round o n c h b
cycle_index-places_round o false (suc n) c p h b = elim (dec_le (n + 2) (base o)) [
  | yes near ↦
      backward_near o n c near
      ∙ mod-eq_of_lt (omega (arith, b, near))
      ∙ sym (below-near o c (suc n) (omega (arith, near)) ∙ omega arith)
      ∙ below-places_round o c (suc n) h b
  | no out ↦
      backward_far o n c (omega (arith, out)) h
      ∙ sym (
          below-far o c (suc n) (omega (arith, out))
          ∙ ap (λ (j : ℕ). (c - j % c) % c) (omega arith))
      ∙ below-places_round o c (suc n) h b
]
