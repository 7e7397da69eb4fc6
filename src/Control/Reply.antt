-- ===== src/Control/Reply.antt =====
-- src/control.c, `connector_name` and the datagrams of the replies, as include/control.h lays them
-- out.
use crystalline_lattice.Common.{
  ℕ, zero, suc, ◌+◌, ◌-◌, ◌*◌, ◌/◌, ◌%◌, Option, none, some, Bool, List, [], ◌∷◌, ◌++◌, ltb,
  if◌then◌else◌, length, take, replicate,
}
use crystalline_lattice.Protocol.{words_bytes}
use crystalline_lattice.Control.{DisplayMode, GlctlMode, list_modes, glctl_magic, glctl_max_modes}

abbrev pub glctl_outputs : ℕ
glctl_outputs = 128

abbrev pub glctl_result : ℕ
glctl_result = 129

-- The connector types that the `switch` names; libdrm has more.
pub data ConnectorType : Type 0 where
  edp : ConnectorType
  lvds : ConnectorType
  display_port : ConnectorType
  hdmi_a : ConnectorType
  hdmi_b : ConnectorType
  vga : ConnectorType
  dvi_i : ConnectorType
  dvi_d : ConnectorType
  dvi_a : ConnectorType
  virtual : ConnectorType
  other : ConnectorType

abbrev pub type_text : ConnectorType → List ℕ
type_text edp = b'e' ∷ b'D' ∷ b'P' ∷ []
type_text lvds = b'L' ∷ b'V' ∷ b'D' ∷ b'S' ∷ []
type_text display_port = b'D' ∷ b'P' ∷ []
type_text hdmi_a = b'H' ∷ b'D' ∷ b'M' ∷ b'I' ∷ 45 ∷ b'A' ∷ []
type_text hdmi_b = b'H' ∷ b'D' ∷ b'M' ∷ b'I' ∷ 45 ∷ b'B' ∷ []
type_text vga = b'V' ∷ b'G' ∷ b'A' ∷ []
type_text dvi_i = b'D' ∷ b'V' ∷ b'I' ∷ []
type_text dvi_d = b'D' ∷ b'V' ∷ b'I' ∷ []
type_text dvi_a = b'D' ∷ b'V' ∷ b'I' ∷ []
type_text virtual = b'V' ∷ b'i' ∷ b'r' ∷ b't' ∷ b'u' ∷ b'a' ∷ b'l' ∷ []
type_text other = b'D' ∷ b'i' ∷ b's' ∷ b'p' ∷ b'l' ∷ b'a' ∷ b'y' ∷ []

-- What `%u` prints, in at most so many digits; a `uint32_t` has ten.
unfoldable pub decimal : ℕ → ℕ → List ℕ
decimal zero n = []
decimal (suc digits) n =
    let front = decimal digits (n / 10) in
    if ltb n 10 then (48 + n) ∷ [] else front ++ (48 + n % 10) ∷ []

abbrev pub name_size : ℕ
name_size = 32

-- `snprintf(buf, len, "%s-%u", t, c->connector_type_id)` for the `name` of an output.
unfoldable pub connector_name : ConnectorType → ℕ → List ℕ
connector_name t id = take (name_size - 1) (type_text t ++ 45 ∷ decimal 10 id)

-- What is read of a `drmModeConnector`, with the mode that is shown.
pub record DisplayConnector : Type 0 where
  pub connector_type : ConnectorType
  pub connector_type_id : ℕ
  pub current : DisplayMode
  pub modes : List DisplayMode

abbrev pub mode_words : List GlctlMode → List ℕ
mode_words [] = []
mode_words (g ∷ gs) = g.w ∷ g.h ∷ g.refresh_mhz ∷ g.flags ∷ mode_words gs

-- The modes that the connector's output lists.
abbrev pub listed_modes : DisplayConnector → List GlctlMode
listed_modes c = list_modes glctl_max_modes c.current c.modes

-- `sizeof(struct glctl_output)`
abbrev pub output_size : ℕ
output_size = 1068

-- The name of the one output, which `memset` padded, and the words after it.
abbrev pub padded : List ℕ → List ℕ
padded name = name ++ replicate (name_size - length name) 0

abbrev pub filled_modes : List GlctlMode → List ℕ
filled_modes gs =
    0 ∷ 0 ∷ length gs ∷ mode_words gs ++ replicate (4 * (glctl_max_modes - length gs)) 0

-- The datagram that `handle_get_outputs` sends, none where the connector is gone.
unfoldable pub outputs_bytes : Option DisplayConnector → List ℕ
outputs_bytes none =
    words_bytes (glctl_outputs ∷ glctl_magic ∷ 0 ∷ []) ++ replicate (4 * output_size) 0
outputs_bytes (some c) =
    words_bytes (glctl_outputs ∷ glctl_magic ∷ 1 ∷ [])
    ++ (padded (connector_name c.connector_type c.connector_type_id)
        ++ (words_bytes (filled_modes (listed_modes c)) ++ replicate (3 * output_size) 0))

-- The datagram that answers a SET_MODE.
unfoldable pub result_bytes : Bool → List ℕ
result_bytes ok = words_bytes (glctl_result ∷ glctl_magic ∷ (if ok then 1 else 0) ∷ [])
