-- ===== src/Platform/Setup.antt =====
-- `kms_setup` of src/platform.c: the choice of the connector, the mode, the CRTC and the plane. What
-- libdrm answers is an argument; what it allocates and frees is a list, in order.
use crystalline_lattice.Common.{
  ℕ, suc, ◌/◌, ◌%◌, ◌^◌, ◌==◌, Bool, true, false, not, ◌&&◌, Option, none, some, List, [], ◌∷◌,
  ◌++◌, if◌then◌else◌,
}
use crystalline_lattice.Control.{DisplayMode}
use crystalline_lattice.Platform.{Kms, Prop, prop_value}

-- `drmModeConnector`, `drmModeEncoder` and `drmModePlane`, as far as they are read; `props` is what
-- `prop_map_load` gives for the plane. A bit mask is its number.
pub record Connector : Type 0 where
  pub connector_id : ℕ
  pub connected : Bool
  pub modes : List DisplayMode
  pub encoder_id : ℕ
  pub encoders : List ℕ

pub record Encoder : Type 0 where
  pub encoder_crtc : ℕ
  pub encoder_crtcs : ℕ

pub record Plane : Type 0 where
  pub plane_id : ℕ
  pub plane_crtcs : ℕ
  pub props : Option (List Prop)

-- Resources that libdrm, or `prop_map_load`, hands out.
pub data Resource : Type 0 where
  resources connector encoder plane_resources plane props_of blob : Resource

pub data Alloc : Type 0 where
  take give : Resource → Alloc

-- What libdrm answers: the connectors, none where one is not given, and the CRTCs, if there are
-- resources; an encoder by its id; the planes; the properties of what is chosen; the blob; and what
-- a mask has at a shift by -1, which C leaves undefined.
pub record DrmAnswers : Type 0 where
  pub found : Option (List (Option Connector) × List ℕ)
  pub encoder_of : ℕ → Option Encoder
  pub planes : Option (List (Option Plane))
  pub conn_map : Option (List Prop)
  pub crtc_map : Option (List Prop)
  pub plane_map : Option (List Prop)
  pub blob_made : Option ℕ
  pub wild_bit : ℕ → Bool

abbrev pub has_modes : List DisplayMode → Bool
has_modes [] = false
has_modes (m ∷ ms) = true

abbrev pub is_usable : Connector → Bool
is_usable c = c.connected && has_modes c.modes

-- The loop over the connectors.
unfoldable pub pick_connector : List (Option Connector) → Option Connector × List Alloc
pick_connector [] = (none, [])
pick_connector (none ∷ cs) = pick_connector cs
pick_connector (some c ∷ cs) =
    let (r, allocs) = pick_connector cs in
    if is_usable c
    then (some c, take connector ∷ [])
    else (r, take connector ∷ give connector ∷ allocs)

-- `conn->modes[best]`: the first preferred mode, or else the first.
unfoldable pub best_of : DisplayMode → List DisplayMode → DisplayMode
best_of fallback [] = fallback
best_of fallback (m ∷ ms) = if m.preferred then m else best_of fallback ms

-- `mask & (1u << c)`
abbrev pub has_bit : ℕ → ℕ → Bool
has_bit mask c = mask / 2 ^ c % 2 == 1

-- The CRTC of the encoder that is in use, 0 where there is none.
unfoldable pub current_crtc : (ℕ → Option Encoder) → ℕ → ℕ × List Alloc
current_crtc encoder_of id = if id == 0 then (0, []) else elim (encoder_of id) [
  | none ↦ (0, [])
  | some e ↦ (e.encoder_crtc, take encoder ∷ give encoder ∷ [])
]

-- The loop over the CRTCs, from the index `i` on.
unfoldable pub first_crtc : ℕ → ℕ → List ℕ → ℕ
first_crtc mask i [] = 0
first_crtc mask i (c ∷ cs) = if has_bit mask i then c else first_crtc mask (suc i) cs

-- The loop over the encoders, while `crtc_id` is 0.
unfoldable pub find_crtc : (ℕ → Option Encoder) → List ℕ → ℕ → List ℕ → ℕ × List Alloc
find_crtc encoder_of crtcs crtc [] = (crtc, [])
find_crtc encoder_of crtcs crtc (id ∷ ids) =
    let skipped = find_crtc encoder_of crtcs crtc ids in
    if not (crtc == 0) then (crtc, []) else elim (encoder_of id) [
      | none ↦ skipped
      | some e ↦
          let (r, allocs) = find_crtc encoder_of crtcs (first_crtc e.encoder_crtcs 0 crtcs) ids in
          (r, take encoder ∷ give encoder ∷ allocs)
    ]

-- `crtc_index_of`, none for -1; the loop is at the index `i`.
unfoldable pub crtc_index_of : ℕ → ℕ → List ℕ → Option ℕ
crtc_index_of crtc i [] = none
crtc_index_of crtc i (c ∷ cs) = if c == crtc then some i else crtc_index_of crtc (suc i) cs

-- "type"
abbrev pub name_type : List ℕ
name_type = 116 ∷ 121 ∷ 112 ∷ 101 ∷ []

abbrev map_allocs : Option (List Prop) → List Alloc
map_allocs none = []
map_allocs (some ps) = take props_of ∷ give props_of ∷ []

-- What is freed on each way out.
abbrev leave : List Alloc
leave = give connector ∷ give resources ∷ []

-- `prop_map_free`; an empty map has nothing to free.
abbrev free_map : Option (List Prop) → List Alloc
free_map none = []
free_map (some ps) = give props_of ∷ []

-- What `kms_finish` gives back, with the blob and the maps that are there.
abbrev finish : ℕ → Option (List Prop) → Option (List Prop) → Option (List Prop) → List Alloc
finish mode_blob conn_props crtc_props plane_props =
    (if mode_blob == 0 then [] else give blob ∷ [])
    ++ (free_map conn_props ++ (free_map crtc_props ++ free_map plane_props))

-- The end of `kms_setup`: the maps, and the blob of the mode.
unfoldable pub load_all : DrmAnswers → Kms → Option Kms × List Alloc
load_all a k = elim a.conn_map [
  | none ↦ (none, leave)
  | some ps ↦ elim a.crtc_map [
    | none ↦ (none, take props_of ∷ (leave ++ finish 0 (some ps) none none))
    | some qs ↦ elim a.plane_map [
      | none ↦ (none, take props_of ∷ take props_of ∷ (leave ++ finish 0 (some ps) (some qs) none))
      | some rs ↦ elim a.blob_made [
        | none ↦ (
          none,
          take props_of
              ∷ take props_of
              ∷ take props_of
              ∷ (leave ++ finish 0 (some ps) (some qs) (some rs)),
        )
        | some b ↦ (
          some (record k { conn_props = ps; crtc_props = qs; plane_props = rs; mode_blob = b }),
          take props_of ∷ take props_of ∷ take props_of ∷ take blob ∷ leave,
        )
      ]
    ]
  ]
]

abbrev pub mode_of : Connector → DisplayMode → DisplayMode
mode_of c none_there = elim c.modes [ [] ↦ none_there | m ∷ ms ↦ best_of m (m ∷ ms) ]

-- `kms_finish`: the struct that is left, and the blobs that are destroyed.
unfoldable pub kms_finish : Kms → Kms × List ℕ
kms_finish k = (
  record k { mode_blob = 0; conn_props = []; crtc_props = []; plane_props = [] },
  if k.mode_blob == 0 then [] else k.mode_blob ∷ [],
)

-- `primary` is libdrm's `DRM_PLANE_TYPE_PRIMARY`.
module _ (primary : ℕ) where
  abbrev pub is_primary : Option (List Prop) → Bool
  is_primary none = false
  is_primary (some ps) = elim (prop_value ps name_type) [ none ↦ false | some t ↦ t == primary ]

  -- The loop over the planes, while `plane_id` is 0; `on_crtc` tests a mask for the CRTC's bit.
  unfoldable pub find_plane : (ℕ → Bool) → ℕ → List (Option Plane) → ℕ × List Alloc
  find_plane on_crtc id [] = (id, [])
  find_plane on_crtc id (none ∷ ps) = find_plane on_crtc id ps
  find_plane on_crtc id (some p ∷ ps) =
      let chosen = if on_crtc p.plane_crtcs && is_primary p.props then p.plane_id else 0 in
      let (r, allocs) = find_plane on_crtc chosen ps in
      let loaded = if on_crtc p.plane_crtcs then map_allocs p.props else [] in
      if not (id == 0) then (id, []) else (r, take plane ∷ (loaded ++ give plane ∷ allocs))

  -- The part of `kms_setup` from the CRTC's planes on.
  unfoldable pub setup_plane : DrmAnswers → List ℕ → Kms → Option Kms × List Alloc
  setup_plane a crtcs k = elim a.planes [
    | none ↦ (none, leave)
    | some ps ↦
        let on_crtc : ℕ → Bool = elim (crtc_index_of k.crtc_id 0 crtcs) [
          | none ↦ a.wild_bit
          | some i ↦ λ mask. has_bit mask i
        ] in
        let (id, allocs) = find_plane on_crtc 0 ps in
        let (r, more) = load_all a (record k { plane_id = id }) in
        if id == 0
        then (none, take plane_resources ∷ (allocs ++ give plane_resources ∷ leave))
        else (r, take plane_resources ∷ (allocs ++ give plane_resources ∷ more))
  ]

  -- The part of `kms_setup` from the connector on.
  unfoldable pub setup_crtc : DrmAnswers → List ℕ → Connector → Kms → Option Kms × List Alloc
  setup_crtc a crtcs c k =
      let (now, allocs) = current_crtc a.encoder_of c.encoder_id in
      let (crtc, more) = find_crtc a.encoder_of crtcs now c.encoders in
      let (r, rest) = setup_plane a crtcs (record k { crtc_id = crtc }) in
      if crtc == 0 then (none, allocs ++ (more ++ leave)) else (r, allocs ++ (more ++ rest))

  -- `memory` is the struct after `memset`, with a mode of zeros.
  unfoldable pub kms_setup : DrmAnswers → Kms → Option Kms × List Alloc
  kms_setup a memory = elim a.found [
    | none ↦ (none, [])
    | some res ↦
        let (picked, allocs) = pick_connector res.0 in
        elim picked [
          | none ↦ (none, take resources ∷ (allocs ++ give resources ∷ []))
          | some c ↦
              let (r, more) =
                setup_crtc a res.1 c
                  (record memory { connector_id = c.connector_id; mode = mode_of c memory.mode }) in
              (r, take resources ∷ (allocs ++ more))
        ]
  ]
