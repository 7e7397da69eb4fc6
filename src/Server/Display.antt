-- ===== src/Server/Display.antt =====
-- src/server.c: the display in the main loop: DRM master, the pages, the blanking of an idle panel,
-- and the pages' part of `apply_mode_cb`. What the kernel answers is an argument.
use crystalline_lattice.Common.{
  ℕ, ◌+◌, Bool, true, false, not, ◌&&◌, ◌||◌, Option, List, [], ◌∷◌, ◌++◌, if◌then◌else◌, ℤ, pos,
  ◌-ℤ◌, ltb_ℤ,
}
use crystalline_lattice.Control.{DisplayMode}
use crystalline_lattice.Platform.{
  Kms, DumbFb, FbAnswers, Setting, atomic_add, kms_atomic_modeset, kms_atomic_plane, name_active,
  name_fb_id, dumb_fb_create,
}
use crystalline_lattice.Platform.Mode.{kms_set_mode_wh}
use crystalline_lattice.Server.{Server, apply_mode}

-- The variables of `server_run` that are about the display. A page is false for `fb[0]` and true for
-- `fb[1]`; `front` is the one that was committed last. The clock is in milliseconds.
pub record Screen : Type 0 where
  pub kms : Kms
  pub fb : Bool → DumbFb
  pub master : Bool
  pub need_modeset : Bool
  pub blanked : Bool
  pub front : Bool
  pub last_activity : ℤ

-- What the kernel is asked, and which page is drawn: `blank` and `present` are atomic commits; the
-- former says whether it is granted, and the latter whether it may set the mode.
pub data Act : Type 0 where
  set_master : Act
  drop_master : Act
  blank : Bool → List Setting → Act
  draw : Bool → Act
  present : Bool → Bool → List Setting → Act

-- What a round finds: whether the seat is active, the clock, whether the kernel library has memory
-- for each property of the two requests, and whether the first of them is granted.
pub record Moment : Type 0 where
  pub active : Bool
  pub now : ℤ
  pub added_active : Bool
  pub blank_granted : Bool
  pub added : ℕ → Bool

abbrev pub Round : Type 0
Round = Server × Screen × List Act

unfoldable pub hold_master : Bool → Server → Screen → Round
hold_master active s d =
    if active && not d.master
    then (
      record s { dirty = true },
      record d { master = true; need_modeset = true },
      set_master ∷ [],
    )
    else if not active && d.master
    then (s, record d { master = false }, drop_master ∷ [])
    else (s, d, [])

unfoldable pub wake : ℤ → Server → Screen → Server × Screen
wake now s d =
    if s.activity
    then (
      record s { activity = false; dirty = s.dirty || d.blanked },
      record d { last_activity = now; blanked = false; need_modeset = d.need_modeset || d.blanked },
    )
    else (s, d)

unfoldable pub is_idle : ℤ → ℤ → Screen → Bool
is_idle idle_ms now d =
    d.master && not d.blanked && ltb_ℤ (pos 0) idle_ms && ltb_ℤ idle_ms (now -ℤ d.last_activity)

unfoldable pub rest : ℤ → Moment → Screen → Screen × List Act
rest idle_ms m d =
    let (_, req) = atomic_add m.added_active [] d.kms.crtc_id d.kms.crtc_props name_active 0 in
    if is_idle idle_ms m.now d
    then (record d { blanked = m.blank_granted }, blank m.blank_granted req ∷ [])
    else (d, [])

-- The request that shows the page `back`.
unfoldable pub frame_request : (ℕ → Bool) → Screen → Bool → List Setting
frame_request added d back =
    let id = (d.fb back).fb_id in
    if d.need_modeset
    then (kms_atomic_plane (λ n. added (3 + n)) (kms_atomic_modeset added [] d.kms).1 d.kms id).1
    else (atomic_add (added 0) [] d.kms.plane_id d.kms.plane_props name_fb_id id).1

unfoldable pub render : (ℕ → Bool) → Server → Screen → Round
render added s d =
    let back = not d.front in
    if d.master && s.dirty && not d.blanked
    then (
      record s { dirty = false },
      record d { front = back; need_modeset = false },
      draw back ∷ present back d.need_modeset (frame_request added d back) ∷ [],
    )
    else (s, d, [])

-- The round up to `poll`.
unfoldable pub display_round : ℤ → Moment → Server → Screen → Round
display_round idle_ms m s d =
    let (s1, d1, mastered) = hold_master m.active s d in
    let (s2, d2) = wake m.now s1 d1 in
    let (d3, rested) = rest idle_ms m d2 in
    let (s3, d4, rendered) = render m.added s2 d3 in (s3, d4, mastered ++ (rested ++ rendered))

-- A connector that was added or removed.
unfoldable pub hotplug : Server → Screen → Server × Screen
hotplug s d = (record s { dirty = true }, record d { need_modeset = true })

-- What the kernel answers to a change of the mode: the connector with its modes, the blob, and the
-- calls for each page.
pub record ModeAnswers : Type 0 where
  pub conn : Option (List DisplayMode)
  pub blob : Option ℕ
  pub pages : Bool → FbAnswers

-- The loop of `apply_mode_cb` over the pages: each is destroyed and made anew, up to the first that
-- is not made.
unfoldable pub remake : (Bool → FbAnswers) → ℤ → ℤ → (Bool → DumbFb) → Bool × (Bool → DumbFb)
remake pages nw nh fb =
    let (ok_0, fb_0, _) = dumb_fb_create (pages false) nw nh in
    let (ok_1, fb_1, _) = dumb_fb_create (pages true) nw nh in
    if ok_0
    then (ok_1, λ page. if page then fb_1 else fb_0)
    else (false, λ page. if page then fb true else fb_0)

-- `apply_mode_cb`, on the display and on the rest.
unfoldable pub change_mode : ModeAnswers → ℤ → ℤ → ℤ → Server → Screen → Bool × Server × Screen
change_mode answers w h refresh_mhz s d =
    let (found, k, _) = kms_set_mode_wh answers.conn answers.blob d.kms w h refresh_mhz in
    let nw = pos k.mode.hdisplay in
    let nh = pos k.mode.vdisplay in
    let (made, fb) = remake answers.pages nw nh d.fb in
    let (ok, s', _) = apply_mode s found nw nh made in
    (
      ok,
      s',
      if found then record d { kms = k; fb = fb; need_modeset = d.need_modeset || made } else d,
    )
