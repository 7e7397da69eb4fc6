-- ===== src/Control/Panel.antt =====
-- What a panel finds in the reply to a GET_OUTPUTS of src/control.c.
use crystalline_lattice.Common.{
  ℕ, zero, suc, ◌+◌, ◌*◌, ◌≤◌, ◌≡◌, ◌==◌, ◌&&◌, if◌then◌else◌, List, [], ◌∷◌, ◌++◌, arith, length,
  replicate,
}
use crystalline_lattice.Protocol.{u32_at, words_bytes}
use crystalline_lattice.Control.{DisplayMode, GlctlMode, glctl_magic, glctl_max_modes}
use crystalline_lattice.Control.Laws.{millihertz}
use crystalline_lattice.Control.Reply.{
  name_size, mode_words, output_size, filled_modes, glctl_outputs,
}
use crystalline_lattice.Control.Layout.{FitsWords}

-- The modes that stand one after the other from `j` on.
abbrev pub read_modes : ℕ → ℕ → List ℕ → List GlctlMode
read_modes zero j b = []
read_modes (suc n) j b =
    record {
      w = u32_at j b;
      h = u32_at (j + 4) b;
      refresh_mhz = u32_at (j + 8) b;
      flags = u32_at (j + 12) b;
    }
    ∷ read_modes n (j + 16) b

abbrev IsAt : List ℕ → ℕ → GlctlMode → Type 0
IsAt b j g =
    (u32_at j b ≡ g.w)
    × (u32_at (j + 4) b ≡ g.h)
    × (u32_at (j + 8) b ≡ g.refresh_mhz)
    × (u32_at (j + 12) b ≡ g.flags)

-- The reply with the output `name`, padded, and the modes `gs`.
module _ (name : List ℕ) (long : length name ≡ name_size) (gs : List GlctlMode)
    (few : length gs ≤ glctl_max_modes) (fit : FitsWords (mode_words gs)) where
  abbrev hs : List ℕ
  hs = glctl_outputs ∷ glctl_magic ∷ 1 ∷ []

  abbrev head : FitsWords hs
  head = (omega arith, (omega arith, (omega arith, tt)))

  abbrev zeros : List ℕ
  zeros = replicate (3 * output_size) 0

  abbrev reply : List ℕ
  reply = words_bytes hs ++ (name ++ (words_bytes (filled_modes gs) ++ zeros))

-- The entry that a mode is to have in the reply: its size, its rate in millihertz, and 1 in the
-- flags where it is preferred and 2 where the display shows it now.
abbrev pub entry_of : DisplayMode → DisplayMode → GlctlMode
entry_of now m =
    let shown =
      m.hdisplay == now.hdisplay && m.vdisplay == now.vdisplay && m.vrefresh == now.vrefresh in
    record {
      w = m.hdisplay;
      h = m.vdisplay;
      refresh_mhz = millihertz m;
      flags = if m.preferred then (if shown then 3 else 1) else (if shown then 2 else 0);
    }
