-- ===== src/Transport/Reap.antt =====
-- The windows of a client that is gone, in src/transport.c.
use crystalline_lattice.Common.{
  ℕ, zero, suc, ◌≡◌, ◌≢◌, refl, ap, ◌∙◌, Bool, false, not, ◌&&◌, ◌||◌, none, some, List, [], ◌∷◌,
  ◌++◌, arith, leb, ◌==◌, if◌then◌else◌, Bool-cases, Option-cases, inl, inr, get_elem?, set, All,
}
use crystalline_lattice.Window
use crystalline_lattice.Window.{Window, WindowStack}
use crystalline_lattice.Window.Invariant.{IsValid, destroy-IsValid, update-IsValid}
use crystalline_lattice.Window.Effects.{by_id-destroy, by_id-update}
use crystalline_lattice.Transport.{
  Transport, Client, ClWin, Orphan, win_drop_buffer, client_at, set_buf, free_client, Effect, unmap,
  epoll_del, close,
}
use crystalline_lattice.Transport.Routing.{owns}
use crystalline_lattice.Transport.Session.{
  reap, client_drop, keep_slot, is_shell, orphans_expire, expire_from, orphan_destroy,
}

-- Whether a slot in use refers to the server window.
abbrev pub refers : ℕ → List ClWin → Bool
refers j [] = false
refers j (w ∷ ws) = owns j w || refers j ws

module _ (s : WindowStack) (valid : IsValid s) (w : ClWin) where
  drop-IsValid : IsValid (win_drop_buffer w s).1
  unfolding win_drop_buffer
  drop-IsValid = elim (Option-cases w.buf) [
    | inl e ↦ rw e valid
    | inr (base, e) ↦ rw e (update-IsValid s valid w.server_id (set_buf none) (λ v. refl))
  ]

  by_id-drop : (j : ℕ) → w.server_id ≢ j → Window.by_id (win_drop_buffer w s).1 j ≡ Window.by_id s j
  unfolding win_drop_buffer
  by_id-drop j ne = elim (Option-cases w.buf) [
    | inl e ↦ rw e
    | inr (base, e) ↦ rw e (by_id-update s w.server_id j (set_buf none) (λ v. refl) ∙ ground arith)
  ]

  -- One round of the loop.
  by_id-drop_destroy :
      (j : ℕ)
      → Window.by_id (Window.destroy (win_drop_buffer w s).1 w.server_id) j
        ≡ (if w.server_id == j then none else Window.by_id s j)
  by_id-drop_destroy j =
      by_id-destroy (win_drop_buffer w s).1 drop-IsValid w.server_id j
      ∙ ground (arith, by_id-drop j)

-- The loop leaves the windows that no slot in use refers to, each as it was, and no other, and the
-- stack valid.
pub reap_lem :
    (ws : List ClWin) (s : WindowStack)
    → IsValid s
    → (j : ℕ)
    → IsValid (reap ws s).0
      × (Window.by_id (reap ws s).0 j ≡ (if refers j ws then none else Window.by_id s j))
unfolding reap
reap_lem [] s valid j = (valid, refl)
reap_lem (w ∷ ws) s valid j = elim (Bool-cases (w.client_wid == 0)) [
  | inl e ↦ rw e (reap_lem ws s valid j)
  | inr e ↦
      let s' = Window.destroy (win_drop_buffer w s).1 w.server_id in
      let valid' : IsValid s' =
        destroy-IsValid (win_drop_buffer w s).1 (drop-IsValid s valid w) w.server_id in
      let (left, seen) = reap_lem ws s' valid' j in
      rw e (left, seen ∙ ground (arith, by_id-drop_destroy s valid w j))
]

-- The mappings behind the slots in use, unmapped in the order of the slots.
abbrev pub buffers_of : List ClWin → List Effect
buffers_of [] = []
buffers_of (w ∷ ws) =
    let rest = buffers_of ws in
    if w.client_wid == 0
    then rest
    else elim w.buf [ none ↦ rest | some base ↦ unmap base w.buf_len ∷ rest ]

effects-reap : (ws : List ClWin) (s : WindowStack) → (reap ws s).1 ≡ buffers_of ws
unfolding reap win_drop_buffer
effects-reap [] s = refl
effects-reap (w ∷ ws) s = elim (Bool-cases (w.client_wid == 0)) [
  | inl e ↦ rw e (effects-reap ws s)
  | inr e ↦ elim (Option-cases w.buf) [
    | inl f ↦ rw (e, f) (effects-reap ws _)
    | inr (base, f) ↦ rw (e, f) (ap (◌∷◌ (unmap base w.buf_len)) (effects-reap ws _))
  ]
]

get_elem?-free :
    (cs : List Client) (i : ℕ)
    → elim (get_elem? (set cs i free_client) i) [ none ↦ free_client | some c ↦ c ] ≡ free_client
get_elem?-free [] i = refl
get_elem?-free (c ∷ cs) zero = refl
get_elem?-free (c ∷ cs) (suc i) = get_elem?-free cs i

-- A client without a shell window, on a valid stack, is dropped at once: its slot is free, an id
-- names a window still where no slot of the client in use refers to it and as before there, no orphan
-- changes, and the kernel is asked to unmap the buffers of its slots in use, in their order, and then
-- to forget its descriptor and to close it, and for nothing else.
pub client_drop-app :
    (t : Transport) (i now : ℕ)
    → IsValid t.stack
    → is_shell t.stack (client_at t i).wins ≡ false
    → let (t', effects) = client_drop t i now in
      (client_at t' i ≡ free_client)
      × ((j : ℕ)
          → Window.by_id t'.stack j
            ≡ (if refers j (client_at t i).wins then none else Window.by_id t.stack j))
      × (t'.orphans ≡ t.orphans)
      × (effects
          ≡ buffers_of (client_at t i).wins
            ++ elim (client_at t i).fd [ none ↦ [] | some fd ↦ epoll_del fd ∷ close fd ∷ [] ])
unfolding client_drop
client_drop-app t i now valid app =
    let lost : keep_slot t (client_at t i) ≡ none = unfold keep_slot in ground arith in
    rw (lost, client_drop)
      (
        get_elem?-free t.clients i,
        λ j. (reap_lem (client_at t i).wins t.stack valid j).1,
        refl,
        rw (effects-reap (client_at t i).wins t.stack) refl,
      )

abbrev pub is_expired : ℕ → Orphan → Bool
is_expired now o = not (o.token == 0) && leb o.deadline_ms now

-- Whether an orphan that is past its grace period refers to the server window.
abbrev pub expiring : ℕ → ℕ → List Orphan → Bool
expiring now j [] = false
expiring now j (o ∷ os) = is_expired now o && refers j o.wins || expiring now j os

expire_from_lem :
    (now : ℕ) (os : List Orphan) (s : WindowStack)
    → IsValid s
    → (j : ℕ)
    → let (os', s', effects, changed) = expire_from now os s in
      All (λ (o : Orphan). is_expired now o ≡ false) os'
      × (Window.by_id s' j ≡ (if expiring now j os then none else Window.by_id s j))
unfolding expire_from orphan_destroy
expire_from_lem now [] s valid j = (tt, refl)
expire_from_lem now (o ∷ os) s valid j = elim (Bool-cases (is_expired now o)) [
  | inl e ↦
      let (valid', here) = reap_lem o.wins s valid j in
      let (fresh, left) = expire_from_lem now os (reap o.wins s).0 valid' j in
      rw e ((refl, fresh), left ∙ ground (arith, here))
  | inr e ↦ let (fresh, left) = expire_from_lem now os s valid j in rw e ((e, fresh), left)
]

-- On a valid stack, `orphans_expire` leaves no orphan past its grace period, and an id names a
-- window still where no orphan past it refers to the window, and as before there.
pub orphans_expire_lem :
    (t : Transport) (now : ℕ)
    → IsValid t.stack
    → let t' = (orphans_expire t now).0 in
      All (λ (o : Orphan). is_expired now o ≡ false) t'.orphans
      × ((j : ℕ)
          → Window.by_id t'.stack j
            ≡ (if expiring now j t.orphans then none else Window.by_id t.stack j))
unfolding orphans_expire
orphans_expire_lem t now valid = (
  (expire_from_lem now t.orphans t.stack valid 0).0,
  λ j. (expire_from_lem now t.orphans t.stack valid j).1,
)
