-- ===== src/Control/Laws.antt =====
-- src/control.c: the modes that a reply lists, and the connections that are closed.
use crystalline_lattice.Common.{
  ℕ, zero, suc, ◌-◌, ◌*◌, ◌/◌, ◌%◌, ◌^◌, ◌||◌, ◌≡◌, refl, sym, ap, ◌∙◌, ◌==◌, Bool, false, Option,
  List, [], ◌∷◌, ◌++◌, map, arith, if◌then◌else◌, Bool-cases, Option-cases, inl, inr, leb, length,
  take, ℤ,
}
use crystalline_lattice.Control.{
  DisplayMode, GlctlMode, mode_refresh_mhz, glctl_mode_of, list_modes, Connection, ControlEffect,
  send_outputs, send_result, close, Request, handle_get_outputs, answer, serve_connection,
  control_process, read_request,
}

-- The refresh rate of a mode in millihertz, from its pixel clock in kHz, or else from its rate in Hz.
abbrev pub millihertz : DisplayMode → ℕ
millihertz m =
    if m.htotal == 0 || m.vtotal == 0
    then 1000 * m.vrefresh % 2 ^ 32
    else 1000000 * m.clock / (m.htotal * m.vtotal) % 2 ^ 32

pub mode_refresh_mhz-millihertz : (m : DisplayMode) → mode_refresh_mhz m ≡ millihertz m
unfolding mode_refresh_mhz
mode_refresh_mhz-millihertz m =
    let slow : m.vrefresh * 1000 ≡ 1000 * m.vrefresh = omega arith in
    let exact : m.clock * 1000000 ≡ 1000000 * m.clock = omega arith in
    simp (slow, exact)
      (elim (Bool-cases (m.htotal == 0)) [
        | inl e ↦ simp e refl
        | inr e ↦ elim (Bool-cases (m.vtotal == 0)) [
          | inl f ↦ simp (e, f) refl
          | inr f ↦ simp (e, f) refl
        ]
      ])

-- The modes that are not interlaced.
abbrev pub progressive : List DisplayMode → List DisplayMode
progressive [] = []
progressive (m ∷ ms) = if m.interlaced then progressive ms else m ∷ progressive ms

take_none : (ms : List GlctlMode) → take 0 ms ≡ []
take_none [] = refl
take_none (m ∷ ms) = refl

-- The list of modes that a GET_OUTPUTS is answered with is the display's modes without the
-- interlaced ones, in the display's order and each once, up to as many as there is room for.
pub list_modes_lem :
    (room : ℕ) (now : DisplayMode) (ms : List DisplayMode)
    → list_modes room now ms ≡ take room (map (glctl_mode_of now) (progressive ms))
unfolding list_modes
list_modes_lem zero now [] = refl
list_modes_lem (suc room) now [] = refl
list_modes_lem zero now (m ∷ ms) = sym (take_none (map (glctl_mode_of now) (progressive (m ∷ ms))))
list_modes_lem (suc room) now (m ∷ ms) =
    let some_room : (suc room == 0) ≡ false = ground arith in
    elim (Bool-cases m.interlaced) [
      | inl e ↦ simp (some_room, e) (list_modes_lem (suc room) now ms)
      | inr e ↦
          let left : list_modes (suc room - 1) now ms ≡ list_modes room now ms =
            ap (λ (k : ℕ). list_modes k now ms) (omega arith) in
          simp (some_room, e) (ap (◌∷◌ (glctl_mode_of now m)) (left ∙ list_modes_lem room now ms))
    ]

-- The descriptors that effects close.
abbrev pub closes : List ControlEffect → List ℕ
closes [] = []
closes (send_outputs cfd modes ∷ es) = closes es
closes (send_result cfd ok ∷ es) = closes es
closes (close cfd ∷ es) = cfd ∷ closes es

closes-append : (es fs : List ControlEffect) → closes (es ++ fs) ≡ closes es ++ closes fs
closes-append [] fs = refl
closes-append (send_outputs cfd modes ∷ es) fs = closes-append es fs
closes-append (send_result cfd ok ∷ es) fs = closes-append es fs
closes-append (close cfd ∷ es) fs = ap (◌∷◌ cfd) (closes-append es fs)

abbrev pub cfds : List Connection → List ℕ
cfds [] = []
cfds (c ∷ cs) = c.cfd ∷ cfds cs

module _ {S : Type 0} (apply : S → ℤ → ℤ → ℤ → Bool × S)
    (modes : S → Option (DisplayMode × List DisplayMode)) where
  closes-get_outputs : (s : S) (cfd : ℕ) → closes (handle_get_outputs apply modes s cfd) ≡ []
  unfolding handle_get_outputs
  closes-get_outputs s cfd = elim (Option-cases (modes s)) [
    | inl e ↦ rw (e, handle_get_outputs, closes)
    | inr ((now, ms), e) ↦ rw (e, handle_get_outputs, closes)
  ]

  closes-answer : (s : S) (cfd : ℕ) (req : Request) → closes (answer apply modes s cfd req).1 ≡ []
  unfolding answer
  closes-answer s cfd req = ground (arith, closes-get_outputs s cfd)

  closes-serve_connection :
      (s : S) (c : Connection) → closes (serve_connection apply modes s c).1 ≡ []
  unfolding serve_connection
  closes-serve_connection s c = elim (Option-cases c.received) [
    | inl e ↦ rw (e, closes)
    | inr (b, e) ↦ elim (Bool-cases (leb 8 (length b))) [
      | inl h ↦ rw (e, h) (closes-answer s c.cfd (read_request b c.stale))
      | inr h ↦ rw (e, h)
    ]
  ]

  -- Whatever the panels send and however `apply` answers, each accepted connection is closed
  -- exactly once, in the order in which they were accepted.
  pub closes-control_process :
      (s : S) (cs : List Connection) → closes (control_process apply modes s cs).1 ≡ cfds cs
  unfolding control_process
  closes-control_process s [] = refl
  closes-control_process s (c ∷ cs) =
      closes-append (serve_connection apply modes s c).1 _
      ∙ rw (closes-serve_connection)
          (ap (◌∷◌ c.cfd) (closes-control_process (serve_connection apply modes s c).0 cs))
