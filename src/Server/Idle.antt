-- ===== src/Server/Idle.antt =====
-- The idle panel in the main loop of src/server.c: it stays dark until there is input.
use crystalline_lattice.Common.{
  ℕ, ◌+◌, ◌≡◌, refl, ◌∙◌, Bool, true, false, not, ◌&&◌, ◌||◌, List, [], ◌∷◌, ◌++◌, arith,
  if◌then◌else◌, ℤ, pos, Bool-cases, inl, inr, ltb_ℤ, ◌-ℤ◌, -ℤ_parts,
}
use crystalline_lattice.Platform.{Setting, kms_atomic_modeset, kms_atomic_plane}
use crystalline_lattice.Server.{Server}
use crystalline_lattice.Server.Display.{
  Screen, Act, set_master, draw, present, Moment, hold_master, wake, is_idle, rest, render,
  frame_request, display_round,
}

-- Right after input, no panel is idle.
not_idle_now : (idle_ms now : ℤ) → (ltb_ℤ (pos 0) idle_ms && ltb_ℤ idle_ms (now -ℤ now)) ≡ false
not_idle_now idle_ms now = ground (arith, -ℤ_parts now now)

-- The request for the whole state: the mode, and the page on the plane.
abbrev pub full_request : (ℕ → Bool) → Screen → Bool → List Setting
full_request added d page =
    (kms_atomic_plane (λ n. added (3 + n)) (kms_atomic_modeset added [] d.kms).1 d.kms
      (d.fb page).fb_id).1

or_true : (b : Bool) → (b || true) ≡ true
or_true true = refl
or_true false = refl

or_false : (b : Bool) → (b || false) ≡ b
or_false true = refl
or_false false = refl

-- The stages of such a round.
kept_master : (s : Server) (d : Screen) → d.master ≡ true → hold_master true s d ≡ (s, d, [])
unfolding hold_master
kept_master s d e = rw e refl

taken_master :
    (s : Server) (d : Screen)
    → d.master ≡ false
    → hold_master true s d ≡ (
      record s { dirty = true },
      record d { master = true; need_modeset = true },
      set_master ∷ [],
    )
unfolding hold_master
taken_master s d e = rw e refl

unwoken : (now : ℤ) (s : Server) (d : Screen) → s.activity ≡ false → wake now s d ≡ (s, d)
unfolding wake
unwoken now s d e = rw e refl

abbrev lively : Server → Server
lively s = record s { activity = false; dirty = true }

abbrev lit : ℤ → Screen → Screen
lit now d = record d { last_activity = now; blanked = false; need_modeset = true }

woken :
    (now : ℤ) (s : Server) (d : Screen)
    → s.activity ≡ true
    → d.blanked ≡ true
    → wake now s d ≡ (lively s, lit now d)
unfolding wake
woken now s d e blanked =
    let on : (d.need_modeset || d.blanked) ≡ true = simp blanked (or_true d.need_modeset) in
    let drawn : (s.dirty || d.blanked) ≡ true = simp blanked (or_true s.dirty) in
    rw (e, on, drawn) refl

dark_rest : (idle_ms : ℤ) (m : Moment) (d : Screen) → d.blanked ≡ true → rest idle_ms m d ≡ (d, [])
unfolding rest is_idle
dark_rest idle_ms m d blanked = elim (Bool-cases d.master) [
  | inl e ↦ rw (e, blanked) refl
  | inr e ↦ rw e refl
]

lit_rest :
    (idle_ms : ℤ) (m : Moment) (d : Screen)
    → d.master ≡ true
    → rest idle_ms m (lit m.now d) ≡ (lit m.now d, [])
unfolding rest is_idle
lit_rest idle_ms m d e = rw (e, not_idle_now idle_ms m.now) refl

dark_render :
    (added : ℕ → Bool) (s : Server) (d : Screen) → d.blanked ≡ true → render added s d ≡ (s, d, [])
unfolding render
dark_render added s d blanked = elim (Bool-cases (d.master && s.dirty)) [
  | inl e ↦ rw (blanked) (ground arith)
  | inr e ↦ ground arith
]

lit_render :
    (added : ℕ → Bool) (now : ℤ) (s : Server) (d : Screen)
    → d.master ≡ true
    → render added (lively s) (lit now d) ≡ (
      record (lively s) { dirty = false },
      record (lit now d) { front = not d.front; need_modeset = false },
      draw (not d.front) ∷ present (not d.front) true (full_request added d (not d.front)) ∷ [],
    )
unfolding render frame_request
lit_render added now s d e = rw e refl

stages :
    (idle_ms : ℤ) (m : Moment) (s s1 s2 s3 : Server) (d d1 d2 d3 d4 : Screen) (a1 a2 a3 : List Act)
    → hold_master m.active s d ≡ (s1, d1, a1)
    → wake m.now s1 d1 ≡ (s2, d2)
    → rest idle_ms m d2 ≡ (d3, a2)
    → render m.added s2 d3 ≡ (s3, d4, a3)
    → display_round idle_ms m s d ≡ (s3, d4, a1 ++ (a2 ++ a3))
unfolding display_round
stages idle_ms m s s1 s2 s3 d d1 d2 d3 d4 a1 a2 a3 e1 e2 e3 e4 = rw (e1, e2, e3, e4) refl

-- In a round with the seat active and the panel blanked, the server becomes DRM master where it was
-- not. Without input since the last round nothing is drawn or committed and the panel stays
-- blanked, whatever has changed in the scene. With input, the other page is drawn and committed in
-- the same round with the whole state of the display, and the panel is not blanked again in that
-- round, however short the idle time is.
pub display_round-blanked :
    (idle_ms : ℤ) (m : Moment) (s : Server) (d : Screen)
    → m.active ≡ true
    → d.blanked ≡ true
    → let mastered = if d.master then [] else set_master ∷ [] in
      let back = not d.front in
      display_round idle_ms m s d ≡ (
        if s.activity
        then (
          record s { activity = false; dirty = false },
          record d {
            master = true;
            blanked = false;
            front = back;
            need_modeset = false;
            last_activity = m.now;
          },
          mastered ++ (draw back ∷ present back true (full_request m.added d back) ∷ []),
        )
        else (
          record s { dirty = s.dirty || not d.master },
          record d { master = true; need_modeset = d.need_modeset || not d.master },
          mastered,
        ))
display_round-blanked idle_ms m s d active blanked = elim (Bool-cases s.activity) [
  | inl e ↦ elim (Bool-cases d.master) [
    | inl f ↦
        stages idle_ms m s s (lively s) _ d d (lit m.now d) (lit m.now d) _ [] [] _
          (rw active (kept_master s d f)) (woken m.now s d e blanked) (lit_rest idle_ms m d f)
          (lit_render m.added m.now s d f)
        ∙ rw (e, f) refl
    | inr f ↦
        let d1 : Screen = record d { master = true; need_modeset = true } in
        let s1 : Server = record s { dirty = true } in
        stages idle_ms m s s1 (lively s1) _ d d1 (lit m.now d1) (lit m.now d1) _ (set_master ∷ [])
          [] _ (rw active (taken_master s d f)) (woken m.now s1 d1 e blanked)
          (lit_rest idle_ms m d1 refl) (lit_render m.added m.now s1 d1 refl)
        ∙ rw (e, f) refl
  ]
  | inr e ↦ elim (Bool-cases d.master) [
    | inl f ↦
        stages idle_ms m s s s s d d d d d [] [] [] (rw active (kept_master s d f))
          (unwoken m.now s d e) (dark_rest idle_ms m d blanked) (dark_render m.added s d blanked)
        ∙ rw (e, f, or_false s.dirty, or_false d.need_modeset) refl
    | inr f ↦
        let d1 : Screen = record d { master = true; need_modeset = true } in
        let s1 : Server = record s { dirty = true } in
        stages idle_ms m s s1 s1 s1 d d1 d1 d1 d1 (set_master ∷ []) [] []
          (rw active (taken_master s d f)) (unwoken m.now s1 d1 e) (dark_rest idle_ms m d1 blanked)
          (dark_render m.added s1 d1 blanked)
        ∙ rw (e, f, or_true s.dirty, or_true d.need_modeset) refl
  ]
]
