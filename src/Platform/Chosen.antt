-- ===== src/Platform/Chosen.antt =====
-- `kms_setup` of src/platform.c: what is chosen where it succeeds.
use crystalline_lattice.Common.{
  ℕ, ◌≡◌, sym, ap, ◌∙◌, ◌⊎◌, inl, inr, Bool, false, Option, none, some, List, arith, ◌==◌, All,
  get_elem?,
}
use crystalline_lattice.Platform.{Kms}
use crystalline_lattice.Platform.Setup.{
  Connector, Plane, DrmAnswers, current_crtc, find_crtc, find_plane, crtc_index_of, has_bit,
}
use crystalline_lattice.Platform.Search.{
  IsFirst, is_ready, IsDefault, Drives, current_crtc-cases, find_crtc-cases, crtc_index_of-cases,
  IsPlane, find_plane-cases,
}

module _ (primary : ℕ) where
  -- What the last part of `kms_setup` adds to the struct, and keeps of it.
  abbrev IsLoaded : DrmAnswers → Kms → Kms → Type 0
  IsLoaded a k k' =
      (k'.connector_id ≡ k.connector_id)
      × (k'.crtc_id ≡ k.crtc_id)
      × (k'.plane_id ≡ k.plane_id)
      × (k'.mode ≡ k.mode)
      × (a.conn_map ≡ some k'.conn_props)
      × (a.crtc_map ≡ some k'.crtc_props)
      × (a.plane_map ≡ some k'.plane_props)
      × (a.blob_made ≡ some k'.mode_blob)

  -- A primary plane for the CRTC. Where the CRTC is not in the list, no plane is tested for it.
  abbrev pub Shows : DrmAnswers → List ℕ → List (Option Plane) → Kms → Type 0
  Shows a crtcs ps k =
      ((i : ℕ) × (get_elem? crtcs i ≡ some k.crtc_id)
        × IsPlane primary (λ mask. has_bit mask i) ps k.plane_id)
      ⊎ (All (λ c. (c == k.crtc_id) ≡ false) crtcs × IsPlane primary a.wild_bit ps k.plane_id)

  module _ (a : DrmAnswers) (crtcs : List ℕ) (k : Kms) where
    abbrev mask_test : ℕ → Bool
    mask_test = elim (crtc_index_of k.crtc_id 0 crtcs) [
      | none ↦ a.wild_bit
      | some i ↦ λ mask. has_bit mask i
    ]

    abbrev plane_found : List (Option Plane) → ℕ
    plane_found ps = (find_plane primary mask_test 0 ps).0

    shows :
        (ps : List (Option Plane))
        → (plane_found ps == 0) ≡ false
        → Shows a crtcs ps (record k { plane_id = plane_found ps })
    shows ps some_plane = elim (find_plane-cases primary mask_test 0 ps) [
      | inl none_found ↦ absurd (ground (arith, some_plane, none_found))
      | inr (n, p, there, same, kind, bit) ↦ elim (crtc_index_of-cases k.crtc_id 0 crtcs) [
        | inl (e, absent) ↦ inr (absent, (n, p, there, same, kind, rw (e, mask_test) at bit))
        | inr (j, e, crtc_there) ↦
            let e' : crtc_index_of k.crtc_id 0 crtcs ≡ some j = e ∙ ap some (omega arith) in
            inl (j, crtc_there, (n, p, there, same, kind, rw (e', mask_test) at bit))
      ]
    ]

  module _ (a : DrmAnswers) (crtcs : List ℕ) (c : Connector) (k : Kms) where
    abbrev crtc_found : ℕ
    crtc_found =
        (find_crtc a.encoder_of crtcs (current_crtc a.encoder_of c.encoder_id).0 c.encoders).0

    drives : (crtc_found == 0) ≡ false → Drives a crtcs c crtc_found
    drives some_crtc =
        let now = (current_crtc a.encoder_of c.encoder_id).0 in
        elim (find_crtc-cases a.encoder_of crtcs now c.encoders) [
          | inr found ↦ inr found
          | inl kept ↦ elim (current_crtc-cases a.encoder_of c.encoder_id) [
            | inl zero_now ↦ absurd (ground (arith, some_crtc, kept, zero_now))
            | inr (e, there, same) ↦ inl (e, there, same ∙ sym kept)
          ]
        ]

    -- The rest of `kms_setup`, from the connector on.
    abbrev IsSetUp : Kms → Type 0
    IsSetUp k' =
        (k'.connector_id ≡ k.connector_id)
        × (k'.mode ≡ k.mode)
        × Drives a crtcs c k'.crtc_id
        × ((k'.crtc_id == 0) ≡ false)
        × ((k'.plane_id == 0) ≡ false)
        × (ps : List (Option Plane)) × (a.planes ≡ some ps)
        × Shows a crtcs ps k'
        × (a.conn_map ≡ some k'.conn_props)
        × (a.crtc_map ≡ some k'.crtc_props)
        × (a.plane_map ≡ some k'.plane_props)
        × (a.blob_made ≡ some k'.mode_blob)

-- A connector, and what `kms_setup` took for it.
pub record IsChosen (primary : ℕ) (a : DrmAnswers) (k : Kms) : Type 0 where
  pub connectors : List (Option Connector)
  pub crtcs : List ℕ
  pub planes : List (Option Plane)
  pub connector : Connector
  pub found : a.found ≡ some (connectors, crtcs)
  pub given : a.planes ≡ some planes
  pub first : IsFirst is_ready connectors (some connector)
  pub same_connector : k.connector_id ≡ connector.connector_id
  pub default : IsDefault connector.modes k.mode
  pub drives : Drives a crtcs connector k.crtc_id
  pub some_crtc : (k.crtc_id == 0) ≡ false
  pub some_plane : (k.plane_id == 0) ≡ false
  pub shows : Shows primary a crtcs planes k
  pub conn_map : a.conn_map ≡ some k.conn_props
  pub crtc_map : a.crtc_map ≡ some k.crtc_props
  pub plane_map : a.plane_map ≡ some k.plane_props
  pub blob : a.blob_made ≡ some k.mode_blob
