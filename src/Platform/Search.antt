-- ===== src/Platform/Search.antt =====
-- The loops of `kms_setup` in src/platform.c: what each of them finds.
use crystalline_lattice.Common.{
  ℕ, suc, ◌+◌, ◌≡◌, refl, sym, ap, ◌∙◌, ◌⊎◌, inl, inr, Bool, true, false, ◌&&◌, Option, none, some,
  List, [], ◌∷◌, ◌++◌, arith, ◌==◌, if◌then◌else◌, Bool-cases, Option-cases, All, get_elem?,
}
use crystalline_lattice.Control.{DisplayMode}
use crystalline_lattice.Platform.Setup.{
  Connector, Encoder, Plane, DrmAnswers, pick_connector, current_crtc, find_crtc, first_crtc,
  find_plane, crtc_index_of, has_bit, is_usable, is_primary, best_of,
}

-- The first of the list with the property.
pub record IsFirst {A : Type 0} (p : A → Bool) (xs : List A) (x : A) : Type 0 where
  pub before : List A
  pub behind : List A
  pub split : xs ≡ before ++ x ∷ behind
  pub holds : p x ≡ true
  pub earlier : All (λ y. p y ≡ false) before

later :
    {A : Type 0} (p : A → Bool) (y : A) (xs : List A) (x : A)
    → p y ≡ false
    → IsFirst p xs x
    → IsFirst p (y ∷ xs) x
later p y xs x e f = record {
  before = y ∷ f.before;
  behind = f.behind;
  split = ap (◌∷◌ y) f.split;
  holds = f.holds;
  earlier = (e, f.earlier);
}

at_once : {A : Type 0} (p : A → Bool) (x : A) (xs : List A) → p x ≡ true → IsFirst p (x ∷ xs) x
at_once p x xs e = record { before = []; behind = xs; split = refl; holds = e; earlier = tt }

abbrev pub is_ready : Option Connector → Bool
is_ready none = false
is_ready (some c) = is_usable c

pub pick_connector-IsFirst :
    (cs : List (Option Connector)) (c : Connector)
    → (pick_connector cs).0 ≡ some c
    → IsFirst is_ready cs (some c)
unfolding pick_connector
pick_connector-IsFirst [] c e = absurd (cc)
pick_connector-IsFirst (none ∷ cs) c e =
    later is_ready none cs (some c) refl (pick_connector-IsFirst cs c e)
pick_connector-IsFirst (some d ∷ cs) c e = elim (Bool-cases (is_usable d)) [
  | inl h ↦ let same : some d ≡ some c = rw h at e in rw (sym same) (at_once is_ready (some d) cs h)
  | inr h ↦ later is_ready (some d) cs (some c) h (pick_connector-IsFirst cs c (rw h at e))
]

-- The first preferred mode, or the first of all where none is preferred.
abbrev pub IsDefault : List DisplayMode → DisplayMode → Type 0
IsDefault ms m =
    IsFirst (λ u. u.preferred) ms m
    ⊎ (All (λ (u : DisplayMode). u.preferred ≡ false) ms × (get_elem? ms 0 ≡ some m))

pub best_of-cases :
    (fallback : DisplayMode) (ms : List DisplayMode)
    → IsFirst (λ u. u.preferred) ms (best_of fallback ms)
      ⊎ (All (λ (u : DisplayMode). u.preferred ≡ false) ms × (best_of fallback ms ≡ fallback))
unfolding best_of
best_of-cases fallback [] = inr (tt, refl)
best_of-cases fallback (m ∷ ms) = elim (Bool-cases m.preferred) [
  | inl e ↦ simp e (inl (at_once (λ (u : DisplayMode). u.preferred) m ms e))
  | inr e ↦ elim (best_of-cases fallback ms) [
    | inl f ↦ inl (simp e (later (λ (u : DisplayMode). u.preferred) m ms _ e f))
    | inr (all, f) ↦ inr ((e, all), simp e f)
  ]
]

-- The CRTC is the one of the connector's present encoder, or one that an encoder of the connector
-- can drive.
abbrev pub Drives : DrmAnswers → List ℕ → Connector → ℕ → Type 0
Drives a crtcs c crtc =
    ((e : Encoder) × (a.encoder_of c.encoder_id ≡ some e) × (e.encoder_crtc ≡ crtc))
    ⊎ ((i : ℕ) × (id : ℕ) × (e : Encoder) × (j : ℕ) × (get_elem? c.encoders i ≡ some id)
        × (a.encoder_of id ≡ some e)
        × (get_elem? crtcs j ≡ some crtc)
        × (has_bit e.encoder_crtcs j ≡ true))

pub current_crtc-cases :
    (encoder_of : ℕ → Option Encoder) (id : ℕ)
    → ((current_crtc encoder_of id).0 ≡ 0)
      ⊎ ((e : Encoder) × (encoder_of id ≡ some e)
          × (e.encoder_crtc ≡ (current_crtc encoder_of id).0))
unfolding current_crtc
current_crtc-cases encoder_of id = elim (Bool-cases (id == 0)) [
  | inl e ↦ inl (rw e refl)
  | inr e ↦ elim (Option-cases (encoder_of id)) [
    | inl f ↦ inl (rw (e, f, current_crtc) refl)
    | inr (enc, f) ↦ inr (enc, f, rw (e, f, current_crtc) refl)
  ]
]

-- The index counts from `i`.
first_crtc-cases :
    (mask i : ℕ) (cs : List ℕ)
    → (first_crtc mask i cs ≡ 0)
      ⊎ ((j : ℕ) × (get_elem? cs j ≡ some (first_crtc mask i cs)) × (has_bit mask (i + j) ≡ true))
unfolding first_crtc
first_crtc-cases mask i [] = inl refl
first_crtc-cases mask i (c ∷ cs) = elim (Bool-cases (has_bit mask i)) [
  | inl e ↦ rw e (inr (0, refl, ap (has_bit mask) (omega arith) ∙ e))
  | inr e ↦ rw e (elim (first_crtc-cases mask (suc i) cs) [
    | inl f ↦ inl f
    | inr (j, there, bit) ↦ inr (suc j, there, ap (has_bit mask) (omega arith) ∙ bit)
  ])
]

-- `current` is the CRTC of the connector's present encoder; the rest of the encoders are tried.
pub find_crtc-cases :
    (encoder_of : ℕ → Option Encoder) (crtcs : List ℕ) (crtc : ℕ) (ids : List ℕ)
    → let r = (find_crtc encoder_of crtcs crtc ids).0 in
      (r ≡ crtc)
      ⊎ ((i : ℕ) × (id : ℕ) × (e : Encoder) × (j : ℕ) × (get_elem? ids i ≡ some id)
          × (encoder_of id ≡ some e)
          × (get_elem? crtcs j ≡ some r)
          × (has_bit e.encoder_crtcs j ≡ true))
unfolding find_crtc
find_crtc-cases encoder_of crtcs crtc [] = inl refl
find_crtc-cases encoder_of crtcs crtc (id ∷ ids) = elim (Bool-cases (crtc == 0)) [
  | inr e ↦ inl (rw e refl)
  | inl e ↦ elim (Option-cases (encoder_of id)) [
    | inl f ↦
        rw (e, f, find_crtc)
          (elim (find_crtc-cases encoder_of crtcs crtc ids) [
            | inl g ↦ inl g
            | inr (i, n, d, j, p, q, r, s) ↦ inr (suc i, n, d, j, p, q, r, s)
          ])
    | inr (enc, f) ↦
        rw (e, f, find_crtc)
          (elim (find_crtc-cases encoder_of crtcs (first_crtc enc.encoder_crtcs 0 crtcs) ids) [
            | inr (i, n, d, j, p, q, r, s) ↦ inr (suc i, n, d, j, p, q, r, s)
            | inl g ↦ elim (first_crtc-cases enc.encoder_crtcs 0 crtcs) [
              | inl z ↦ inl (g ∙ z ∙ ground (arith, e))
              | inr (j, there, bit) ↦ inr (
                0,
                id,
                enc,
                j,
                refl,
                f,
                there ∙ ap some (sym g),
                ap (has_bit enc.encoder_crtcs) (omega arith) ∙ bit,
              )
            ]
          ])
  ]
]

pub crtc_index_of-cases :
    (crtc i : ℕ) (cs : List ℕ)
    → ((crtc_index_of crtc i cs ≡ none) × All (λ c. (c == crtc) ≡ false) cs)
      ⊎ ((j : ℕ) × (crtc_index_of crtc i cs ≡ some (i + j)) × (get_elem? cs j ≡ some crtc))
unfolding crtc_index_of
crtc_index_of-cases crtc i [] = inl (refl, tt)
crtc_index_of-cases crtc i (c ∷ cs) = elim (Bool-cases (c == crtc)) [
  | inl e ↦ rw e (inr (0, ap some (omega arith), ground (arith, e)))
  | inr e ↦ rw e (elim (crtc_index_of-cases crtc (suc i) cs) [
    | inl (f, all) ↦ inl (f, (refl, all))
    | inr (j, f, there) ↦ inr (suc j, f ∙ ap some (omega arith), there)
  ])
]

module _ (primary : ℕ) where
  -- A plane of the list that is primary, and whose mask has the CRTC.
  abbrev pub IsPlane : (ℕ → Bool) → List (Option Plane) → ℕ → Type 0
  IsPlane on_crtc ps id =
      (i : ℕ) × (p : Plane) × (get_elem? ps i ≡ some (some p))
      × (p.plane_id ≡ id)
      × (is_primary primary p.props ≡ true)
      × (on_crtc p.plane_crtcs ≡ true)

  pub find_plane-cases :
      (on_crtc : ℕ → Bool) (id : ℕ) (ps : List (Option Plane))
      → let r = (find_plane primary on_crtc id ps).0 in (r ≡ id) ⊎ IsPlane on_crtc ps r
  unfolding find_plane
  find_plane-cases on_crtc id [] = inl refl
  find_plane-cases on_crtc id (none ∷ ps) = elim (find_plane-cases on_crtc id ps) [
    | inl e ↦ inl e
    | inr (i, q, a, b, c, d) ↦ inr (suc i, q, a, b, c, d)
  ]
  find_plane-cases on_crtc id (some p ∷ ps) = elim (Bool-cases (id == 0)) [
    | inr e ↦ inl (rw e refl)
    | inl e ↦
        let chosen =
          if on_crtc p.plane_crtcs && is_primary primary p.props then p.plane_id else 0 in
        rw e (elim (find_plane-cases on_crtc chosen ps) [
          | inr (i, q, a, b, c, d) ↦ inr (suc i, q, a, b, c, d)
          | inl g ↦ elim (Bool-cases (on_crtc p.plane_crtcs && is_primary primary p.props)) [
            | inl f ↦ inr (0, p, refl, sym (g ∙ rw f refl), ground (arith, f), ground (arith, f))
            | inr f ↦ inl (g ∙ (rw f (ground (arith, e))))
          ]
        ])
  ]
