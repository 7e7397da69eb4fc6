-- ===== src/Control.antt =====
-- include/control.h and src/control.c: the control socket, which lists the display's modes and asks
-- for another. A mode of the display is the fields of it that the code reads; the state that `apply`
-- works on, and `apply`, are parameters.
pub mod Laws
pub mod Reply
pub mod Names
pub mod Layout
pub mod Panel
pub mod Endpoint
pub mod Shutdown
pub mod Tests
use crystalline_lattice.Common.{
  ℕ, zero, suc, ◌+◌, ◌-◌, ◌*◌, ◌/◌, ◌%◌, ◌^◌, ◌==◌, Bool, true, false, not, ◌&&◌, ◌||◌, Option,
  none, some, List, [], ◌∷◌, ◌++◌, if◌then◌else◌, leb, length, drop, ℤ, int_of_u32,
}
use crystalline_lattice.Protocol.{u32_at}

abbrev pub glctl_magic : ℕ
glctl_magic = 0x4743544C

abbrev pub glctl_get_outputs : ℕ
glctl_get_outputs = 1

abbrev pub glctl_set_mode : ℕ
glctl_set_mode = 2

abbrev pub glctl_max_modes : ℕ
glctl_max_modes = 64

abbrev pub glctl_mode_preferred : ℕ
glctl_mode_preferred = 1

abbrev pub glctl_mode_current : ℕ
glctl_mode_current = 2

-- What is read of a `drmModeModeInfo`, with the tests of its flags and of its type.
pub record DisplayMode : Type 0 where
  pub clock : ℕ
  pub hdisplay : ℕ
  pub htotal : ℕ
  pub vdisplay : ℕ
  pub vtotal : ℕ
  pub vrefresh : ℕ
  pub interlaced : Bool
  pub preferred : Bool

-- `struct glctl_mode`
pub record GlctlMode : Type 0 where
  pub w : ℕ
  pub h : ℕ
  pub refresh_mhz : ℕ
  pub flags : ℕ

unfoldable pub mode_refresh_mhz : DisplayMode → ℕ
mode_refresh_mhz m =
    if not (m.htotal == 0) && not (m.vtotal == 0)
    then ((m.clock * 1000000) / (m.htotal * m.vtotal)) % 2 ^ 32
    else (m.vrefresh * 1000) % 2 ^ 32

-- Whether the display shows the mode now.
abbrev pub is_current : DisplayMode → DisplayMode → Bool
is_current now m =
    m.hdisplay == now.hdisplay && m.vdisplay == now.vdisplay && m.vrefresh == now.vrefresh

unfoldable pub glctl_mode_of : DisplayMode → DisplayMode → GlctlMode
glctl_mode_of now m = record {
  w = m.hdisplay;
  h = m.vdisplay;
  refresh_mhz = mode_refresh_mhz m;
  flags =
      (if m.preferred then glctl_mode_preferred else 0)
      + (if is_current now m then glctl_mode_current else 0);
}

-- The loop of `handle_get_outputs`, with `room` entries left.
unfoldable pub list_modes : ℕ → DisplayMode → List DisplayMode → List GlctlMode
list_modes room now [] = []
list_modes room now (m ∷ ms) =
    let rest = list_modes (if m.interlaced then room else room - 1) now ms in
    if room == 0 then [] else if m.interlaced then rest else glctl_mode_of now m ∷ rest

-- `struct glctl_request`, less the output, which no code reads.
pub record Request : Type 0 where
  pub type : ℕ
  pub magic : ℕ
  pub w : ℕ
  pub h : ℕ
  pub refresh_mhz : ℕ

-- What `recv` wrote over what was in the memory of the request before.
unfoldable pub read_request : List ℕ → List ℕ → Request
read_request b stale =
    let bytes = b ++ drop (length b) stale in
    record {
      type = u32_at 0 bytes;
      magic = u32_at 4 bytes;
      w = u32_at 40 bytes;
      h = u32_at 44 bytes;
      refresh_mhz = u32_at 48 bytes;
    }

-- What the socket is asked. The modes are none where the connector is gone.
pub data ControlEffect : Type 0 where
  send_outputs : ℕ → Option (List GlctlMode) → ControlEffect
  send_result : ℕ → Bool → ControlEffect
  close : ℕ → ControlEffect

-- A connection: its descriptor, what `recv` answers, none for an error, and the memory of the
-- request.
pub record Connection : Type 0 where
  pub cfd : ℕ
  pub received : Option (List ℕ)
  pub stale : List ℕ

module _ {ℓ} {S : Type ℓ} (apply : S → ℤ → ℤ → ℤ → Bool × S)
    (modes : S → Option (DisplayMode × List DisplayMode)) where
  unfoldable pub handle_get_outputs : S → ℕ → List ControlEffect
  handle_get_outputs s cfd = elim (modes s) [
    | none ↦ send_outputs cfd none ∷ []
    | some (now, ms) ↦ send_outputs cfd (some (list_modes glctl_max_modes now ms)) ∷ []
  ]

  unfoldable pub answer : S → ℕ → Request → S × List ControlEffect
  answer s cfd req =
      let (ok, s') = apply s (int_of_u32 req.w) (int_of_u32 req.h) (int_of_u32 req.refresh_mhz) in
      if not (req.magic == glctl_magic)
      then (s, [])
      else if req.type == glctl_get_outputs
      then (s, handle_get_outputs s cfd)
      else if req.type == glctl_set_mode
      then (s', send_result cfd ok ∷ [])
      else (s, [])

  -- `offsetof(struct glctl_request, output)` is 8.
  unfoldable pub serve_connection : S → Connection → S × List ControlEffect
  serve_connection s c = elim c.received [
    | none ↦ (s, [])
    | some b ↦ if leb 8 (length b) then answer s c.cfd (read_request b c.stale) else (s, [])
  ]

  -- The connections that `accept4` gives before it has no more.
  unfoldable pub control_process : S → List Connection → S × List ControlEffect
  control_process s [] = (s, [])
  control_process s (c ∷ cs) =
      let (s', effects) = serve_connection s c in
      let (s'', more) = control_process s' cs in (s'', effects ++ close c.cfd ∷ more)
