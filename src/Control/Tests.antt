-- ===== src/Control/Tests.antt =====
-- The theorems on src/control.c, at concrete connections.
use crystalline_lattice.Common.{ℕ, ◌≡◌, Bool, true, false, none, some, List, [], ◌∷◌, ◌++◌, ℤ}
use crystalline_lattice.Protocol.{words_bytes}
use crystalline_lattice.Control.{DisplayMode, GlctlMode, glctl_magic}
use crystalline_lattice.Control.Reply.{DisplayConnector, hdmi_a}
use crystalline_lattice.Control.Endpoint.{open_control, close_control}
use crystalline_lattice.Control.Shutdown.{shuts, shuts-control}

abbrev mode_at : ℕ → Bool → DisplayMode
mode_at width interlaced = record {
  clock = 74250;
  hdisplay = width;
  htotal = 1650;
  vdisplay = 720;
  vtotal = 750;
  vrefresh = 60;
  interlaced = interlaced;
  preferred = true;
}

-- An interlaced mode and two that are not, on "HDMI-A-12".
abbrev connector : DisplayConnector
connector = record {
  connector_type = hdmi_a;
  connector_type_id = 12;
  current = mode_at 1280 false;
  modes = mode_at 1920 true ∷ mode_at 1280 false ∷ mode_at 640 false ∷ [];
}

abbrev name_12 : List ℕ
name_12 = 72 ∷ 68 ∷ 77 ∷ 73 ∷ 45 ∷ 65 ∷ 45 ∷ 49 ∷ 50 ∷ []

abbrev shown : List GlctlMode
shown =
    record { w = 1280; h = 720; refresh_mhz = 60000; flags = 3 }
    ∷ record { w = 640; h = 720; refresh_mhz = 60000; flags = 1 }
    ∷ []

-- Two rounds, with a GET_OUTPUTS and a failed receive in the first.
shuts-control_example :
    let (ctl, opening) = open_control true none none (some 3) true true in
    shuts (
      opening
      ++ close_control
          (λ (s : ℕ) (w h r : ℤ). (true, s))
          (λ (s : ℕ). none)
          ctl
          0
          ((record { cfd = 4; received = some (words_bytes (1 ∷ glctl_magic ∷ [])); stale = [] }
              ∷ record { cfd = 5; received = none; stale = [] }
              ∷ [])
            ∷ (record { cfd = 4; received = none; stale = [] } ∷ [])
            ∷ []))
    ≡ 4 ∷ 5 ∷ 4 ∷ 3 ∷ []
shuts-control_example =
    shuts-control (λ (s : ℕ) (w h r : ℤ). (true, s)) (λ (s : ℕ). none) true none none (some 3) true
      true 0
      ((record { cfd = 4; received = some (words_bytes (1 ∷ glctl_magic ∷ [])); stale = [] }
          ∷ record { cfd = 5; received = none; stale = [] }
          ∷ [])
        ∷ (record { cfd = 4; received = none; stale = [] } ∷ [])
        ∷ [])
