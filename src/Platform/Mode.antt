-- ===== src/Platform/Mode.antt =====
-- src/platform.c: the change of the display's mode at run time.
use crystalline_lattice.Common.{
  ℕ, ◌+◌, ◌-◌, ◌<◌, ◌≤◌, ◌≡◌, ◌⊎◌, inl, inr, refl, ap, Bool, true, false, not, ◌&&◌, Option, none,
  some, List, [], ◌∷◌, ◌++◌, ◌==◌, ltb, arith, if◌then◌else◌, Bool-cases, Option-cases, All, ℤ, pos,
  eqb_ℤ, eqb_ℤ→eq, u32_of_int, All-mono,
}
use crystalline_lattice.Control.{DisplayMode, mode_refresh_mhz}
use crystalline_lattice.Control.Laws.{millihertz, mode_refresh_mhz-millihertz}
use crystalline_lattice.Platform.{Kms}

-- Whether the loop of `kms_set_mode_wh` looks at the mode.
unfoldable pub fits : ℤ → ℤ → DisplayMode → Bool
fits w h m = not m.interlaced && (eqb_ℤ (pos m.hdisplay) w && eqb_ℤ (pos m.vdisplay) h)

-- `diff`: the distance from the wanted refresh rate, 0 where any will do.
unfoldable pub refresh_diff : ℤ → DisplayMode → ℕ
refresh_diff wanted m =
    let rm = mode_refresh_mhz m in
    let want = u32_of_int wanted in
    if eqb_ℤ wanted (pos 0) then 0 else (if ltb want rm then rm - want else want - rm)

-- `best` and `newmode` with `best_diff`, none while `best` is -1.
abbrev pub better : ℤ → DisplayMode → Option (DisplayMode × ℕ) → Option (DisplayMode × ℕ)
better wanted m none = some (m, refresh_diff wanted m)
better wanted m (some (b, d)) =
    if ltb (refresh_diff wanted m) d then some (m, refresh_diff wanted m) else some (b, d)

unfoldable pub best_mode :
    ℤ → ℤ → ℤ → Option (DisplayMode × ℕ) → List DisplayMode → Option (DisplayMode × ℕ)
best_mode w h wanted best [] = best
best_mode w h wanted best (m ∷ ms) =
    best_mode w h wanted (if fits w h m then better wanted m best else best) ms

-- The blob that `kms_set_mode_wh` makes with the mode it found; `blob` is the kernel's answer. The
-- last component holds the blobs that are destroyed.
unfoldable pub use_mode : Option ℕ → Kms → Option (DisplayMode × ℕ) → Bool × Kms × List ℕ
use_mode blob k none = (false, k, [])
use_mode none k (some b) = (false, k, [])
use_mode (some blob) k (some (m, d)) = (
  true,
  record k { mode = m; mode_blob = blob },
  if k.mode_blob == 0 then [] else k.mode_blob ∷ [],
)

-- `conn` is the connector with its modes, none where the kernel gives none.
unfoldable pub kms_set_mode_wh :
    Option (List DisplayMode) → Option ℕ → Kms → ℤ → ℤ → ℤ → Bool × Kms × List ℕ
kms_set_mode_wh none blob k w h refresh_mhz = (false, k, [])
kms_set_mode_wh (some ms) blob k w h refresh_mhz =
    use_mode blob k (best_mode w h refresh_mhz none ms)

-- The mode is one of the list that fits, closer to the wanted rate than any before it that fits,
-- and as close as any after it.
record Picks (w h wanted : ℤ) (ms : List DisplayMode) (m : DisplayMode) : Type 0 where
  pub before : List DisplayMode
  pub behind : List DisplayMode
  pub split : ms ≡ before ++ m ∷ behind
  pub fitting : fits w h m ≡ true
  pub closer : All (λ u. fits w h u ≡ true → refresh_diff wanted m < refresh_diff wanted u) before
  pub as_close : All (λ u. fits w h u ≡ true → refresh_diff wanted m ≤ refresh_diff wanted u) behind

module _ (w h wanted : ℤ) where
  abbrev NoneCloser : ℕ → List DisplayMode → Type 0
  NoneCloser d = All (λ u. fits w h u ≡ true → d ≤ refresh_diff wanted u)

  -- The best so far is kept, or a mode of the list that is closer takes its place.
  abbrev Continues : DisplayMode → ℕ → List DisplayMode → Type 0
  Continues b d ms =
      ((best_mode w h wanted (some (b, d)) ms ≡ some (b, d)) × NoneCloser d ms)
      ⊎ ((m : DisplayMode) × (best_mode w h wanted (some (b, d)) ms
            ≡ some (m, refresh_diff wanted m))
          × (refresh_diff wanted m < d)
          × Picks w h wanted ms m)

  -- One more mode at the front that is farther away.
  further :
      (u m : DisplayMode) (ms : List DisplayMode)
      → (fits w h u ≡ true → refresh_diff wanted m < refresh_diff wanted u)
      → Picks w h wanted ms m
      → Picks w h wanted (u ∷ ms) m
  further u m ms far best = record {
    before = u ∷ best.before;
    behind = best.behind;
    split = ap (◌∷◌ u) best.split;
    fitting = best.fitting;
    closer = (far, best.closer);
    as_close = best.as_close;
  }

  first :
      (u : DisplayMode) (ms : List DisplayMode)
      → fits w h u ≡ true
      → NoneCloser (refresh_diff wanted u) ms
      → Picks w h wanted (u ∷ ms) u
  first u ms fit none_closer = record {
    before = [];
    behind = ms;
    split = refl;
    fitting = fit;
    closer = tt;
    as_close = none_closer;
  }

  continues : (b : DisplayMode) (d : ℕ) (ms : List DisplayMode) → Continues b d ms
  unfolding best_mode
  continues b d [] = inl (refl, tt)
  continues b d (u ∷ ms) = elim (Bool-cases (fits w h u)) [
    | inr misfit ↦ rw misfit (elim (continues b d ms) [
      | inl (e, rest) ↦ inl (e, (λ fit. absurd (ground (arith, fit, misfit)), rest))
      | inr (m, e, near, best) ↦
          inr (m, e, near, further u m ms (λ fit. absurd (ground (arith, fit, misfit))) best)
    ])
    | inl fit ↦ elim (Bool-cases (ltb (refresh_diff wanted u) d)) [
      | inl lt ↦
          rw (fit, lt)
            (elim (continues u (refresh_diff wanted u) ms) [
              | inl (e, rest) ↦ inr (u, e, ground (arith, lt), first u ms fit rest)
              | inr (m, e, near, best) ↦
                  inr (m, e, ground (arith, lt, near), further u m ms (λ _. near) best)
            ])
      | inr ge ↦
          rw (fit, ge)
            (elim (continues b d ms) [
              | inl (e, rest) ↦ inl (e, (λ _. ground (arith, ge), rest))
              | inr (m, e, near, best) ↦
                  inr (m, e, near, further u m ms (λ _. ground (arith, ge, near)) best)
            ])
    ]
  ]

  best_mode-Picks :
      (ms : List DisplayMode)
      → ((best_mode w h wanted none ms ≡ none) × All (λ u. fits w h u ≡ false) ms)
        ⊎ ((m : DisplayMode) × (best_mode w h wanted none ms ≡ some (m, refresh_diff wanted m))
            × Picks w h wanted ms m)
  unfolding best_mode
  best_mode-Picks [] = inl (refl, tt)
  best_mode-Picks (u ∷ ms) = elim (Bool-cases (fits w h u)) [
    | inr misfit ↦ rw misfit (elim (best_mode-Picks ms) [
      | inl (e, rest) ↦ inl (e, (refl, rest))
      | inr (m, e, best) ↦
          inr (m, e, further u m ms (λ fit. absurd (ground (arith, fit, misfit))) best)
    ])
    | inl fit ↦ rw fit (elim (continues u (refresh_diff wanted u) ms) [
      | inl (e, rest) ↦ inr (u, e, first u ms fit rest)
      | inr (m, e, near, best) ↦ inr (m, e, further u m ms (λ _. near) best)
    ])
  ]

-- The mode is not interlaced and has the size.
abbrev pub IsOfSize : ℤ → ℤ → DisplayMode → Type 0
IsOfSize w h m = (m.interlaced ≡ false) × (pos m.hdisplay ≡ w) × (pos m.vdisplay ≡ h)

-- How far its refresh rate is from the wanted one, where one is wanted, in either direction.
abbrev pub distance : ℤ → DisplayMode → ℕ
distance wanted m =
    if eqb_ℤ wanted (pos 0)
    then 0
    else (millihertz m - u32_of_int wanted) + (u32_of_int wanted - millihertz m)

-- The mode is one of the list of that size, closer to the wanted rate than any of that size before
-- it, and as close as any after it.
pub record IsBest (w h wanted : ℤ) (ms : List DisplayMode) (m : DisplayMode) : Type 0 where
  pub before : List DisplayMode
  pub behind : List DisplayMode
  pub split : ms ≡ before ++ m ∷ behind
  pub fitting : IsOfSize w h m
  pub closer : All (λ u. IsOfSize w h u → distance wanted m < distance wanted u) before
  pub as_close : All (λ u. IsOfSize w h u → distance wanted m ≤ distance wanted u) behind

fits→IsOfSize : (w h : ℤ) (m : DisplayMode) → fits w h m ≡ true → IsOfSize w h m
unfolding fits
fits→IsOfSize w h m e =
    (ground (arith, e), eqb_ℤ→eq _ _ (ground (arith, e)), eqb_ℤ→eq _ _ (ground (arith, e)))

IsOfSize→fits : (w h : ℤ) (m : DisplayMode) → IsOfSize w h m → fits w h m ≡ true
unfolding fits
IsOfSize→fits w h m (plain, wide, high) = rw (← wide, ← high, plain) (ground arith)

refresh_diff-distance : (wanted : ℤ) (m : DisplayMode) → refresh_diff wanted m ≡ distance wanted m
unfolding refresh_diff
refresh_diff-distance wanted m = rw (mode_refresh_mhz-millihertz m) (ground arith)

Picks→IsBest :
    (w h wanted : ℤ) (ms : List DisplayMode) (m : DisplayMode)
    → Picks w h wanted ms m
    → IsBest w h wanted ms m
Picks→IsBest w h wanted ms m p = record {
  before = p.before;
  behind = p.behind;
  split = p.split;
  fitting = fits→IsOfSize w h m p.fitting;
  closer =
      All-mono _ _ p.before
        (λ u lt size.
          rw (refresh_diff-distance wanted m, refresh_diff-distance wanted u) at lt
            (IsOfSize→fits w h u size))
        p.closer;
  as_close =
      All-mono _ _ p.behind
        (λ u le size.
          rw (refresh_diff-distance wanted m, refresh_diff-distance wanted u) at le
            (IsOfSize→fits w h u size))
        p.as_close;
}

none-IsOfSize :
    (w h : ℤ) (ms : List DisplayMode)
    → All (λ u. fits w h u ≡ false) ms
    → All (λ u. ¬ IsOfSize w h u) ms
none-IsOfSize w h ms none_fit =
    All-mono _ _ ms (λ u misfit size. let fit = IsOfSize→fits w h u size in absurd (cc)) none_fit

-- Why `kms_set_mode_wh` fails: no connector, no mode that fits, or no memory for the blob.
abbrev pub Fails : ℤ → ℤ → Option (List DisplayMode) → Option ℕ → Type 0
Fails w h conn blob =
    (conn ≡ none)
    ⊎ ((ms : List DisplayMode) × (conn ≡ some ms) × All (λ u. ¬ IsOfSize w h u) ms)
    ⊎ (blob ≡ none)

-- The mode and the blob that it leaves behind where it succeeds.
abbrev pub Switches : ℤ → ℤ → ℤ → Option (List DisplayMode) → Option ℕ → Kms → Kms → List ℕ → Type 0
Switches w h wanted conn blob k k' destroyed =
    (ms : List DisplayMode) × (n : ℕ) × (m : DisplayMode) × (conn ≡ some ms)
    × (blob ≡ some n)
    × IsBest w h wanted ms m
    × (k' ≡ record k { mode = m; mode_blob = n })
    × (destroyed ≡ (if k.mode_blob == 0 then [] else k.mode_blob ∷ []))

-- `kms_set_mode_wh` either fails, because the connector is gone, because no mode that is not
-- interlaced has the size, or because the kernel makes no blob, and then changes nothing and
-- destroys nothing; or it succeeds with a mode of that size whose refresh rate is as close to
-- the wanted one as that of any other and closer than that of any before it in the list, keeps the
-- rest of the state, and destroys the blob of the old mode, where there is one, and no other.
pub kms_set_mode_wh_lem :
    (conn : Option (List DisplayMode)) (blob : Option ℕ) (k : Kms) (w h wanted : ℤ)
    → let (ok, k', destroyed) = kms_set_mode_wh conn blob k w h wanted in
      ((ok ≡ false) × (k' ≡ k) × (destroyed ≡ []) × Fails w h conn blob)
      ⊎ ((ok ≡ true) × Switches w h wanted conn blob k k' destroyed)
unfolding kms_set_mode_wh use_mode
kms_set_mode_wh_lem none blob k w h wanted = inl (refl, refl, refl, inl refl)
kms_set_mode_wh_lem (some ms) none k w h wanted =
    elim (Option-cases (best_mode w h wanted none ms)) [
      | inl e ↦ inl (rw e (refl, refl, refl, inr (inr refl)))
      | inr (b, e) ↦ inl (rw e (refl, refl, refl, inr (inr refl)))
    ]
kms_set_mode_wh_lem (some ms) (some n) k w h wanted = elim (best_mode-Picks w h wanted ms) [
  | inl (e, rest) ↦ inl (rw e (refl, refl, refl, inr (inl (ms, refl, none-IsOfSize w h ms rest))))
  | inr (m, e, best) ↦
      inr (rw e (refl, (ms, n, m, refl, refl, Picks→IsBest w h wanted ms m best, refl, refl)))
]
