-- ===== src/Window/Cycle.antt =====
-- `window_focus_cycle` of src/window.c: Alt-Tab visits every entry once, and stops at the first
-- mapped NORMAL window.
use crystalline_lattice.Common.{
  ℕ, zero, suc, ◌+◌, ◌≤◌, ◌<◌, ◌≡◌, refl, sym, ap, ◌∙◌, Bool, true, false, ◌&&◌, Option, some, List,
  [], ◌∷◌, arith, length, get_elem?, ◌==◌, Bool-cases, Option-cases, inl, inr, ℤ, pos, leb_ℤ, ◌++◌,
}
use native.Mathlib.Decide.{ℕ_discrete}
use crystalline_lattice.Window
use crystalline_lattice.Window.{
  Window, WindowStack, count, index, index_from, start_of, cycle_index, is_candidate, cycle_from,
  is_normal, is_desktop, Role, normal,
}
use crystalline_lattice.Window.Lookup.{without, locate, absent, present, by_id-find}
use crystalline_lattice.Window.Ids.{find-get_elem?}
use crystalline_lattice.Window.Invariant.{IsValid}
use crystalline_lattice.Window.Effects.{focus_lem}
use crystalline_lattice.Window.Turns.{base, Visits, every-Visits}
use crystalline_lattice.Window.Round.{places_round, origin, cycle_index-places_round}

-- The rounds that the loop has behind it met no mapped NORMAL window.
NoCandidate : WindowStack → Option ℕ → Bool → ℕ → Type 0
NoCandidate s o forward n =
    (v : Window)
    → get_elem? s.windows (cycle_index (start_of o) forward n (count s)) ≡ some v
    → is_candidate v ≡ false

-- The loop stops at its first candidate and focuses it, or meets none and changes nothing.
data Cycled (s : WindowStack) (o : Option ℕ) (forward : Bool) (n rounds : ℕ) (s' : WindowStack)
    : Type 0 where
  stopped :
      (m : ℕ) (v : Window)
      → n ≤ m
      → m < n + rounds
      → get_elem? s.windows (cycle_index (start_of o) forward m (count s)) ≡ some v
      → is_candidate v ≡ true
      → ((k : ℕ) → n ≤ k → k < m → NoCandidate s o forward k)
      → s' ≡ Window.focus s v.id
      → Cycled s o forward n rounds s'
  ran_out :
      ((k : ℕ) → n ≤ k → k < n + rounds → NoCandidate s o forward k)
      → s' ≡ s
      → Cycled s o forward n rounds s'

module _ (s : WindowStack) (o : Option ℕ) (forward : Bool) where
  later :
      (n rounds : ℕ) (s' : WindowStack)
      → NoCandidate s o forward n
      → Cycled s o forward (suc n) rounds s'
      → Cycled s o forward n (suc rounds) s'
  later n rounds s' skip (stopped m v a b e c before r) =
      stopped m v (omega arith) (omega arith) e c (from_here before) r
    where
      from_here :
          ((k : ℕ) → suc n ≤ k → k < m → NoCandidate s o forward k)
          → (k : ℕ) → n ≤ k
          → k < m
          → NoCandidate s o forward k
      from_here before k a b = elim (ℕ_discrete k n) [
        | yes e ↦ rw e skip
        | no ne ↦ before k (omega arith) b
      ]
  later n rounds s' skip (ran_out all r) = ran_out (from_here all) r
    where
      from_here :
          ((k : ℕ) → suc n ≤ k → k < suc n + rounds → NoCandidate s o forward k)
          → (k : ℕ) → n ≤ k
          → k < n + suc rounds
          → NoCandidate s o forward k
      from_here all k a b = elim (ℕ_discrete k n) [
        | yes e ↦ rw e skip
        | no ne ↦ all k (omega arith) (omega arith)
      ]

  cycle_from-Cycled :
      (rounds n : ℕ) → Cycled s o forward n rounds (cycle_from rounds n (start_of o) forward s)
  unfolding cycle_from NoCandidate
  cycle_from-Cycled zero n = ran_out (λ k a b. absurd (omega arith)) refl
  cycle_from-Cycled (suc rounds) n =
      let rest = cycle_from-Cycled rounds (suc n) in
      elim (Option-cases (get_elem? s.windows (cycle_index (start_of o) forward n (count s)))) [
        | inl e ↦ rw (e, cycle_from) (later n rounds _ (λ v e'. cc) rest)
        | inr (v, e) ↦ elim (Bool-cases (is_candidate v)) [
          | inl hit ↦
              rw (e, hit, cycle_from)
                (stopped n v (omega arith) (omega arith) e hit (λ k a b. absurd (omega arith)) refl)
          | inr miss ↦
              rw (e, miss, cycle_from)
                (later n rounds _ (λ u e'. let p : u ≡ v = cc in rw p miss) rest)
        ]
      ]

base-index : (s : WindowStack) (id : ℕ) → base (index s id) ≤ count s
unfolding index
base-index s id = elim (locate 0 id s.windows) [
  | absent a b c d ↦ rw a (omega arith)
  | present i v a l b c d e ↦ rw a (omega arith)
]

get_elem?-lt-length :
    (ws : List Window) (i : ℕ) (v : Window) → get_elem? ws i ≡ some v → i < length ws
get_elem?-lt-length [] i v e = absurd (cc)
get_elem?-lt-length (u ∷ ws) zero v e = omega arith
get_elem?-lt-length (u ∷ ws) (suc i) v e = omega (arith, get_elem?-lt-length ws i v e)

candidate-parts : (v : Window) → is_candidate v ≡ true → (v.role ≡ normal) × (v.mapped ≡ true)
candidate-parts v e = ground arith

candidate-not_desktop : (v : Window) → is_candidate v ≡ true → is_desktop v.role ≡ false
candidate-not_desktop v e = ground arith

-- Where some mapped NORMAL window is on a valid stack, one Alt-Tab in either direction focuses a
-- mapped NORMAL window and puts it on top, the others keeping their order. It is the first one met
-- on the way round from the focused window, or from the top where none has the focus: upward, from
-- each entry to the one above it and from the top to the bottom, for a direction that is not negative,
-- and the other way for a negative one.
pub focus_cycle_lem :
    (s : WindowStack) (dir : ℤ) (i : ℕ) (v : Window)
    → IsValid s
    → get_elem? s.windows i ≡ some v
    → (is_normal v.role && v.mapped) ≡ true
    → let visited = λ (n : ℕ).
      places_round (leb_ℤ (pos 0) dir) (count s) n (origin (index s s.focus_id) (count s)) in
      (m : ℕ) × (u : Window) × (0 < m)
      × (m ≤ count s)
      × (get_elem? s.windows (visited m) ≡ some u)
      × (u.role ≡ normal)
      × (u.mapped ≡ true)
      × ((k : ℕ) (t : Window)
          → 0 < k
          → k < m
          → get_elem? s.windows (visited k) ≡ some t
          → (is_normal t.role && t.mapped) ≡ false)
      × (Window.focused (Window.focus_cycle s dir) ≡ some u)
      × ((Window.focus_cycle s dir).windows ≡ without u.id s.windows ++ u ∷ [])
unfolding Window.focus_cycle NoCandidate Visits
focus_cycle_lem s dir i v valid at_i hit =
    let inside = get_elem?-lt-length s.windows i v at_i in
    let o = index s s.focus_id in
    let forward = leb_ℤ (pos 0) dir in
    let some_there : (count s == 0) ≡ false = ground arith in
    let at = λ (n : ℕ) (h : 0 < n).
      cycle_index-places_round o forward n (count s) h (omega arith) (base-index s s.focus_id) in
    elim (cycle_from-Cycled s o forward (count s) 1) [
      | stopped m u a b e c before r ↦
          let found : Window.by_id s u.id ≡ some u =
            by_id-find s u.id ∙ find-get_elem? s.windows _ u valid.distinct e in
          let (f, w) = focus_lem s valid u.id u found in
          (
            m,
            u,
            omega arith,
            omega arith,
            ap (λ (k : ℕ). get_elem? s.windows k) (sym (at m (omega arith))) ∙ e,
            (candidate-parts u c).0,
            (candidate-parts u c).1,
            λ k t p q g. before k p q t (ap (λ (k : ℕ). get_elem? s.windows k) (at k p) ∙ g),
            rw (some_there, r) f,
            rw (some_there, r) (w ∙ rw (candidate-not_desktop u c)),
          )
      | ran_out all r ↦
          let (n, near, e) = every-Visits o forward (count s) i (base-index s s.focus_id) inside in
          let miss : is_candidate v ≡ false =
            all (suc n) (omega arith) (omega arith) v (rw e at_i) in
          absurd (cc)
    ]
