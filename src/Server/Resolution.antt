-- ===== src/Server/Resolution.antt =====
-- `apply_mode_cb` of src/server.c, on the display's pages and on the rest of the server.
use crystalline_lattice.Common.{
  ℕ, ◌≡◌, refl, ◌⊎◌, inl, inr, Bool, true, false, Option, none, some, arith, if◌then◌else◌, is_some,
  Bool-cases, ℤ, pos,
}
use crystalline_lattice.Platform.{DumbFb, FbAnswers, dumb_fb_create}
use crystalline_lattice.Platform.Mode.{kms_set_mode_wh}
use crystalline_lattice.Server.{Server, apply_mode, resize}
use crystalline_lattice.Server.Display.{Screen, ModeAnswers, remake, change_mode}

-- A page that can be drawn on, of the size.
abbrev pub IsReady : ℤ → ℤ → DumbFb → Type 0
IsReady w h fb = (is_some fb.map ≡ true) × (fb.w ≡ w) × (fb.h ≡ h)

abbrev IsMade : FbAnswers → ℤ → ℤ → Type 0
IsMade a w h =
    let (ok, fb, _) = dumb_fb_create a w h in
    ((ok ≡ true) × IsReady w h fb) ⊎ ((ok ≡ false) × (fb.map ≡ none))

answers-IsMade :
    (c : Option (ℕ × ℕ × ℕ)) (a : Option ℕ) (o : Bool) (m : Option ℕ) (w h : ℤ)
    → IsMade (record { created = c; added = a; offset = o; mapped = m }) w h
unfolding dumb_fb_create
answers-IsMade none a o m w h = inr (refl, refl)
answers-IsMade (some c) none o m w h = inr (refl, refl)
answers-IsMade (some c) (some i) false m w h = inr (refl, refl)
answers-IsMade (some c) (some i) true none w h = inr (refl, refl)
answers-IsMade (some c) (some i) true (some x) w h = inl (refl, (refl, refl, refl))

dumb_fb_create-IsMade : (a : FbAnswers) (w h : ℤ) → IsMade a w h
dumb_fb_create-IsMade a w h = answers-IsMade a.created a.added a.offset a.mapped w h

remake-cases :
    (pages : Bool → FbAnswers) (w h : ℤ) (fb : Bool → DumbFb)
    → let (ok, fb') = remake pages w h fb in
      ((ok ≡ true) × ((page : Bool) → IsReady w h (fb' page)))
      ⊎ ((ok ≡ false) × (page : Bool) × ((fb' page).map ≡ none))
unfolding remake
remake-cases pages w h fb = elim (dumb_fb_create-IsMade (pages false) w h) [
  | inr (lost, e) ↦ inr (rw lost (refl, false, e))
  | inl (ok, ready) ↦ elim (dumb_fb_create-IsMade (pages true) w h) [
    | inr (lost, e) ↦ inr (rw (ok, lost) (refl, true, e))
    | inl (ok', ready') ↦ inl (rw (ok, ok') (refl, both _ _ ready ready'))
  ]
]
  where
    both :
        (f0 f1 : DumbFb)
        → IsReady w h f0
        → IsReady w h f1
        → (page : Bool) → IsReady w h (if page then f1 else f0)
    both f0 f1 a b true = b
    both f0 f1 a b false = a

-- A request for a resolution is refused and changes nothing; or it is done: both pages can be drawn
-- on and have the size of the mode, the next commit sets the mode, and the window manager's screen
-- has that size; or a page cannot be made after the mode is found: the request fails and the
-- rest of the server is as before, but the mode to set is the new one, no commit is asked to set
-- it, and a page is left that has no memory.
pub change_mode_lem :
    (answers : ModeAnswers) (w h refresh_mhz : ℤ) (s : Server) (d : Screen)
    → let (ok, s', d') = change_mode answers w h refresh_mhz s d in
      let (found, k, _) = kms_set_mode_wh answers.conn answers.blob d.kms w h refresh_mhz in
      let nw = pos k.mode.hdisplay in
      let nh = pos k.mode.vdisplay in
      ((found ≡ false) × (ok ≡ false) × (s' ≡ s) × (d' ≡ d))
      ⊎ ((found ≡ true)
          × (ok ≡ true)
          × (d'.kms ≡ k)
          × ((page : Bool) → IsReady nw nh (d'.fb page))
          × (d'.need_modeset ≡ true)
          × (s'.dirty ≡ true)
          × (s'.wm.screen_w ≡ nw)
          × (s'.wm.screen_h ≡ nh))
      ⊎ ((found ≡ true)
          × (ok ≡ false)
          × (s' ≡ s)
          × (d'.kms ≡ k)
          × (d'.need_modeset ≡ d.need_modeset)
          × (page : Bool) × ((d'.fb page).map ≡ none))
unfolding change_mode apply_mode resize
change_mode_lem answers w h refresh_mhz s d =
    let (found, k, _) = kms_set_mode_wh answers.conn answers.blob d.kms w h refresh_mhz in
    elim (Bool-cases found) [
      | inr e ↦ inl (rw e (refl, refl, refl, refl))
      | inl e ↦ elim (remake-cases answers.pages (pos k.mode.hdisplay) (pos k.mode.vdisplay) d.fb) [
        | inl (made, ready) ↦
            inr (inl (rw (e, made) (refl, refl, refl, ready, ground arith, refl, refl, refl)))
        | inr (lost, page, gone) ↦
            inr (inr (rw (e, lost) (refl, refl, refl, refl, ground arith, page, gone)))
      ]
    ]
