-- ===== src/Wayland/Backing.antt =====
-- src/wayland.c: the window that shows a surface, and the list of the live surfaces.
use crystalline_lattice.Common.{
  is_some, ℕ, ◌≡◌, refl, ◌⊎◌, inl, inr, Bool, true, false, not, ◌&&◌, Option, none, some, List, [],
  ◌∷◌, arith, ◌==◌, Bool-cases, All,
}
use crystalline_lattice.Window.{Window, normal}
use crystalline_lattice.Wayland.{FeSurface, times_four}
use crystalline_lattice.Wayland.Requests.{at_address, put, unlink}

abbrev pub Lookup : Type 0
Lookup = ℕ → Option Window

-- The window shows the surface's content, with the role that a Wayland window has.
abbrev pub Shows : FeSurface → Window → Type 0
Shows s v =
    (v.role ≡ normal)
    × (v.buf ≡ s.content)
    × (v.buf_w ≡ s.cw)
    × (v.buf_h ≡ s.ch)
    × (v.buf_stride ≡ times_four s.cw)

abbrev pub is_mapped : FeSurface → Bool
is_mapped s = not (s.server_id == 0)

-- A mapped surface has content, the toplevel role and a live window that shows it.
abbrev pub IsBacked : Lookup → FeSurface → Type 0
IsBacked look s =
    is_mapped s ≡ true
    → (is_some s.content ≡ true)
      × (is_some s.xdg_toplevel ≡ true)
      × (v : Window) × (look s.server_id ≡ some v)
      × Shows s v

-- Two surfaces in different structs, with different windows where both are mapped.
abbrev pub Apart : FeSurface → FeSurface → Type 0
Apart s u =
    ((u.address == s.address) ≡ false) × ((is_mapped s && u.server_id == s.server_id) ≡ false)

abbrev pub AllApart : List FeSurface → Type 0
AllApart [] = Unit
AllApart (s ∷ ss) = All (Apart s) ss × AllApart ss

-- What a handler for `s` may change: with `look` before and `look'` after, `s'` is backed, it has
-- the window it had, none or a new one, and the windows of the others are left alone.
pub record IsLocal (look look' : Lookup) (s s' : FeSurface) : Type 0 where
  pub same_address : s'.address ≡ s.address
  pub backed : IsBacked look' s'
  pub own_window : (s'.server_id ≡ s.server_id) ⊎ (s'.server_id ≡ 0) ⊎ (look s'.server_id ≡ none)
  pub kept :
      (j : ℕ) (v : Window)
      → (is_mapped s && j == s.server_id) ≡ false
      → look j ≡ some v
      → (v' : Window) × (look' j ≡ some v') × ((u : FeSurface) → Shows u v → Shows u v')

Apart-sym : (s u : FeSurface) → Apart s u → Apart u s
Apart-sym s u (apart, differ) = (ground (arith, apart), ground (arith, differ))

pub address-at_address :
    (a : ℕ) (ss : List FeSurface) (s : FeSurface) → at_address a ss ≡ some s → s.address ≡ a
unfolding at_address
address-at_address a [] s e = absurd (cc)
address-at_address a (u ∷ us) s e = ground (arith, e, address-at_address a us s)

pub All-at_address {ℓ} :
    (P : FeSurface → Type ℓ) (a : ℕ) (ss : List FeSurface) (s : FeSurface)
    → All P ss
    → at_address a ss ≡ some s
    → P s
unfolding at_address
All-at_address P a [] s all e = absurd (cc)
All-at_address P a (u ∷ us) s (p, all) e = elim (Bool-cases (u.address == a)) [
  | inl h ↦ let same : u ≡ s = ground (arith, e, h) in rw same at p
  | inr h ↦ All-at_address P a us s all (rw h at e)
]

All-unlink {ℓ} :
    (P : FeSurface → Type ℓ) (a : ℕ) (us : List FeSurface) → All P us → All P (unlink a us)
unfolding unlink
All-unlink P a [] all = tt
All-unlink P a (u ∷ us) (p, all) = elim (Bool-cases (u.address == a)) [
  | inl h ↦ rw h all
  | inr h ↦ rw h (p, All-unlink P a us all)
]

module _ (look look' : Lookup) (s s' : FeSurface) (change : IsLocal look look' s s') where
  other-IsBacked : (u : FeSurface) → Apart s u → IsBacked look u → IsBacked look' u
  other-IsBacked u (apart, differ) backed up =
      let (content, toplevel, v, there, shows) = backed up in
      let (v', there', shows') = change.kept u.server_id v differ there in
      (content, toplevel, v', there', shows' u shows)

  other-Apart : (u : FeSurface) → Apart s u → IsBacked look u → Apart s' u
  other-Apart u (apart, differ) backed = (
    rw change.same_address apart,
    elim change.own_window [
      | inl same ↦ rw same differ
      | inr (inl zero) ↦ rw zero refl
      | inr (inr fresh) ↦ elim (Bool-cases (u.server_id == s'.server_id)) [
        | inr e ↦ rw e (ground arith)
        | inl e ↦ elim (Bool-cases (is_mapped s')) [
          | inr e' ↦ rw e' refl
          | inl up ↦
              let same : u.server_id ≡ s'.server_id = ground (arith, e) in
              let (_, _, v, there, _) = backed (rw same up) in absurd (cc)
        ]
      ]
    ],
  )

  All-Apart-put :
      (x : FeSurface) (us : List FeSurface)
      → IsBacked look x
      → All (Apart x) us
      → at_address s'.address us ≡ some s
      → All (Apart x) (put s' us)
  unfolding put at_address
  All-Apart-put x [] backed apart e = absurd (cc)
  All-Apart-put x (u ∷ us) backed (p, apart) e = elim (Bool-cases (u.address == s'.address)) [
    | inl h ↦
        let same : u ≡ s = ground (arith, e, h) in
        rw h (Apart-sym s' x (other-Apart x (Apart-sym x s (rw same at p)) backed), apart)
    | inr h ↦ rw h (p, All-Apart-put x us backed apart (rw h at e))
  ]

  other-All :
      (us : List FeSurface)
      → All (Apart s) us
      → All (IsBacked look) us
      → All (IsBacked look') us × All (Apart s') us
  other-All [] apart backed = (tt, tt)
  other-All (u ∷ us) (p, apart) (b, backed) =
      let (b', a') = other-All us apart backed in
      ((other-IsBacked u p b, b'), (other-Apart u p b, a'))

  -- Once the entry of the surface is replaced, every surface is backed and all are apart.
  pub put-AllApart :
      (us : List FeSurface)
      → AllApart us
      → All (IsBacked look) us
      → at_address s'.address us ≡ some s
      → All (IsBacked look') (put s' us) × AllApart (put s' us)
  unfolding put at_address
  put-AllApart [] apart backed e = absurd (cc)
  put-AllApart (u ∷ us) (p, apart) (b, backed) e = elim (Bool-cases (u.address == s'.address)) [
    | inl h ↦
        let same : u ≡ s = ground (arith, e, h) in
        let (b', a') = other-All us (rw same at p) backed in rw h ((change.backed, b'), (a', apart))
    | inr h ↦
        let e' : at_address s'.address us ≡ some s = rw h at e in
        let (b', a') = put-AllApart us apart backed e' in
        let mine : Apart s u = Apart-sym u s (All-at_address (Apart u) s'.address us s p e') in
        rw h ((other-IsBacked u mine b, b'), (All-Apart-put u us b p e', a'))
  ]

  -- The same where the surface leaves the list.
  pub unlink-AllApart :
      (us : List FeSurface)
      → AllApart us
      → All (IsBacked look) us
      → at_address s.address us ≡ some s
      → All (IsBacked look') (unlink s.address us) × AllApart (unlink s.address us)
  unfolding unlink at_address
  unlink-AllApart [] apart backed e = absurd (cc)
  unlink-AllApart (u ∷ us) (p, apart) (b, backed) e = elim (Bool-cases (u.address == s.address)) [
    | inl h ↦
        let same : u ≡ s = ground (arith, e, h) in
        let (b', a') = other-All us (rw same at p) backed in rw h (b', apart)
    | inr h ↦
        let e' : at_address s.address us ≡ some s = rw h at e in
        let (b', a') = unlink-AllApart us apart backed e' in
        let mine : Apart s u = Apart-sym u s (All-at_address (Apart u) s.address us s p e') in
        rw h ((other-IsBacked u mine b, b'), (All-unlink (Apart u) s.address us p, a'))
  ]
