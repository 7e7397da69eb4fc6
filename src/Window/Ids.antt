-- ===== src/Window/Ids.antt =====
-- The ids on a window stack: which are there, and that no two windows share one.
use crystalline_lattice.Common.{
  ℕ, zero, suc, ◌≡◌, ◌≢◌, refl, sym, ap, Bool, true, false, ◌||◌, none, some, List, [], ◌∷◌, ◌++◌,
  arith, length, ◌==◌, Bool-cases, inl, inr, All, All-append, All-get_elem?, get_elem?,
}
use crystalline_lattice.Window.{Window}
use crystalline_lattice.Window.Lookup.{find, without, revise}

-- Whether some window has the id.
unfoldable pub has : ℕ → List Window → Bool
has id [] = false
has id (v ∷ ws) = v.id == id || has id ws

abbrev pub IsFresh : ℕ → List Window → Type 0
IsFresh id = All (λ (v : Window). v.id ≢ id)

-- No two windows share an id.
abbrev pub Distinct : List Window → Type 0
Distinct [] = Unit
Distinct (v ∷ ws) = IsFresh v.id ws × Distinct ws

pub id-find : (id : ℕ) (ws : List Window) (v : Window) → find id ws ≡ some v → v.id ≡ id
unfolding find
id-find id [] v e = absurd (cc)
id-find id (u ∷ ws) v e = elim (Bool-cases (u.id == id)) [
  | inl h ↦ ground arith
  | inr h ↦ id-find id ws v (ground arith)
]

pub has-find : (id : ℕ) (ws : List Window) (v : Window) → find id ws ≡ some v → has id ws ≡ true
unfolding find has
has-find id [] v e = absurd (cc)
has-find id (u ∷ ws) v e = elim (Bool-cases (u.id == id)) [
  | inl h ↦ ground arith
  | inr h ↦ rw h (has-find id ws v (ground arith))
]

pub find_of_has :
    (id : ℕ) (ws : List Window) → has id ws ≡ true → (v : Window) × (find id ws ≡ some v)
unfolding find has
find_of_has id [] e = absurd (cc)
find_of_has id (u ∷ ws) e = elim (Bool-cases (u.id == id)) [
  | inl h ↦ (u, rw h)
  | inr h ↦ let (v, p) = find_of_has id ws (ground arith) in (v, rw h p)
]

pub has-append : (id : ℕ) (ws vs : List Window) → has id (ws ++ vs) ≡ (has id ws || has id vs)
unfolding has
has-append id [] vs = refl
has-append id (u ∷ ws) vs = ground (arith, has-append id ws vs)

pub has-without_ne : (id j : ℕ) (ws : List Window) → j ≢ id → has j (without id ws) ≡ has j ws
unfolding has without
has-without_ne id j [] ne = refl
has-without_ne id j (u ∷ ws) ne = ground (arith, has-without_ne id j ws)

pub IsFresh-find : (id : ℕ) (ws : List Window) → IsFresh id ws → find id ws ≡ none
unfolding find
IsFresh-find id [] f = refl
IsFresh-find id (u ∷ ws) f = ground (arith, IsFresh-find id ws f.1)

module _ {ℓ} (P : Window → Type ℓ) where
  pub All-without : (id : ℕ) (ws : List Window) → All P ws → All P (without id ws)
  unfolding without
  All-without id [] a = a
  All-without id (u ∷ ws) a = elim (Bool-cases (u.id == id)) [
    | inl h ↦ rw h a.1
    | inr h ↦ rw h (a.0, All-without id ws a.1)
  ]

  pub All-find : (id : ℕ) (ws : List Window) (v : Window) → All P ws → find id ws ≡ some v → P v
  unfolding find
  All-find id [] v a e = absurd (cc)
  All-find id (u ∷ ws) v a e = elim (Bool-cases (u.id == id)) [
    | inl h ↦ let p : u ≡ v = ground arith in rw p at a.0
    | inr h ↦ All-find id ws v a.1 (ground arith)
  ]

  pub All-revise :
      (id : ℕ) (f : Window → Window) (ws : List Window)
      → ((v : Window) → P v → P (f v))
      → All P ws
      → All P (revise id f ws)
  unfolding revise
  All-revise id f [] keep a = a
  All-revise id f (u ∷ ws) keep a = elim (Bool-cases (u.id == id)) [
    | inl h ↦ rw h (keep u a.0, a.1)
    | inr h ↦ rw h (a.0, All-revise id f ws keep a.1)
  ]

pub IsFresh-without : (id : ℕ) (ws : List Window) → Distinct ws → IsFresh id (without id ws)
unfolding without
IsFresh-without id [] d = tt
IsFresh-without id (u ∷ ws) d = elim (Bool-cases (u.id == id)) [
  | inl h ↦ let p : u.id ≡ id = ground arith in rw h (rw p at d.0)
  | inr h ↦ rw h (ground arith, IsFresh-without id ws d.1)
]

pub Distinct-without : (id : ℕ) (ws : List Window) → Distinct ws → Distinct (without id ws)
unfolding without
Distinct-without id [] d = d
Distinct-without id (u ∷ ws) d = elim (Bool-cases (u.id == id)) [
  | inl h ↦ rw h d.1
  | inr h ↦ rw h (All-without (λ v. v.id ≢ u.id) id ws d.0, Distinct-without id ws d.1)
]

pub Distinct-snoc :
    (ws : List Window) (v : Window) → Distinct ws → IsFresh v.id ws → Distinct (ws ++ v ∷ [])
Distinct-snoc [] v d f = (tt, tt)
Distinct-snoc (u ∷ ws) v d f = (
  All-append (λ (t : Window). t.id ≢ u.id) ws (v ∷ []) d.0 (λ e. f.0 (sym e), tt),
  Distinct-snoc ws v d.1 f.1,
)

pub length-without :
    (id : ℕ) (ws : List Window) (v : Window)
    → find id ws ≡ some v
    → suc (length (without id ws)) ≡ length ws
unfolding find without
length-without id [] v e = absurd (cc)
length-without id (u ∷ ws) v e = elim (Bool-cases (u.id == id)) [
  | inl h ↦ rw h
  | inr h ↦ rw h (ap suc (length-without id ws v (ground arith)))
]

-- A change that keeps the ids.
module _ (id : ℕ) (f : Window → Window) (keeps : (v : Window) → (f v).id ≡ v.id) where
  pub has-revise : (j : ℕ) (ws : List Window) → has j (revise id f ws) ≡ has j ws
  unfolding has revise
  has-revise j [] = refl
  has-revise j (u ∷ ws) = ground (arith, keeps u, has-revise j ws)

  pub length-revise : (ws : List Window) → length (revise id f ws) ≡ length ws
  unfolding revise
  length-revise [] = refl
  length-revise (u ∷ ws) = ground (arith, length-revise ws)

  pub IsFresh-revise : (j : ℕ) (ws : List Window) → IsFresh j ws → IsFresh j (revise id f ws)
  IsFresh-revise j ws a = All-revise (λ v. v.id ≢ j) id f ws (λ v p. rw (keeps v) p) a

  pub Distinct-revise : (ws : List Window) → Distinct ws → Distinct (revise id f ws)
  unfolding revise
  Distinct-revise [] d = d
  Distinct-revise (u ∷ ws) d = elim (Bool-cases (u.id == id)) [
    | inl h ↦ rw h (rw (keeps u) d.0, d.1)
    | inr h ↦ rw h (IsFresh-revise u.id ws d.0, Distinct-revise ws d.1)
  ]

  pub find-revise :
      (ws : List Window) {v : Window} → find id ws ≡ some v → find id (revise id f ws) ≡ some (f v)
  unfolding find revise
  find-revise [] e = absurd (cc)
  find-revise (u ∷ ws) e = elim (Bool-cases (u.id == id)) [
    | inl h ↦ ground (arith, keeps u)
    | inr h ↦ rw (h, h) (find-revise ws (ground arith))
  ]

  pub find-revise_ne : (j : ℕ) (ws : List Window) → j ≢ id → find j (revise id f ws) ≡ find j ws
  unfolding find revise
  find-revise_ne j [] ne = refl
  find-revise_ne j (u ∷ ws) ne = ground (arith, keeps u, find-revise_ne j ws)

-- In a list with distinct ids, each window is the one that its id names.
pub find-get_elem? :
    (ws : List Window) (i : ℕ) (v : Window)
    → Distinct ws
    → get_elem? ws i ≡ some v
    → find v.id ws ≡ some v
unfolding find
find-get_elem? [] i v d e = absurd (cc)
find-get_elem? (u ∷ ws) zero v d e = ground arith
find-get_elem? (u ∷ ws) (suc i) v d e =
    ground
      (arith, find-get_elem? ws i v d.1 e, All-get_elem? (λ (t : Window). t.id ≢ u.id) ws i v d.0 e)
