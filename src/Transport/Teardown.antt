-- ===== src/Transport/Teardown.antt =====
-- The windows of the clients when the transport of src/transport.c ends.
use crystalline_lattice.Common.{
  ℕ, zero, suc, ◌+◌, ◌≤◌, ◌<◌, ◌≡◌, refl, ◌∙◌, Bool, true, false, not, ◌&&◌, ◌||◌, Option, none,
  some, List, [], ◌∷◌, arith, ◌==◌, if◌then◌else◌, Bool-cases, Option-cases, inl, inr, get_elem?,
  set, is_some,
}
use crystalline_lattice.Window
use crystalline_lattice.Window.{WindowStack}
use crystalline_lattice.Window.Invariant.{IsValid}
use crystalline_lattice.Transport.{
  Transport, Client, Orphan, client_at, slot_from, free_client, cl_max_clients,
}
use crystalline_lattice.Transport.Session.{
  client_drop, keep_slot, reap, orphan_destroy, is_shell, count_wins,
}
use crystalline_lattice.Transport.Reap.{refers, reap_lem}
use crystalline_lattice.Transport.Endpoint.{
  Endpoint, drop_clients, destroy_orphans, transport_destroy,
}

-- Whether an orphan in use refers to the server window.
abbrev pub waiting : ℕ → List Orphan → Bool
waiting j [] = false
waiting j (o ∷ os) = not (o.token == 0) && refers j o.wins || waiting j os

abbrev client_of : List Client → ℕ → Client
client_of cs i = elim (get_elem? cs i) [ none ↦ free_client | some c ↦ c ]

-- Whether one of `n` connected clients from `i` on does.
abbrev pub served : ℕ → ℕ → ℕ → List Client → Bool
served j zero i cs = false
served j (suc n) i cs =
    is_some (client_of cs i).fd && refers j (client_of cs i).wins || served j n (suc i) cs

slot_from-above :
    (os : List Orphan) (test : Orphan → Bool) (n k : ℕ) → slot_from n test os ≡ some k → n ≤ k
unfolding slot_from
slot_from-above [] test n k e = absurd (cc)
slot_from-above (o ∷ os) test n k e = elim (Bool-cases (test o)) [
  | inl q ↦ ground arith
  | inr q ↦ ground (arith, slot_from-above os test (suc n) k)
]

waiting-set :
    (j : ℕ) (os : List Orphan) (n i : ℕ) (o : Orphan)
    → slot_from n (λ (o : Orphan). o.token == 0) os ≡ some (n + i)
    → (o.token == 0) ≡ false
    → waiting j (set os i o) ≡ (refers j o.wins || waiting j os)
unfolding slot_from
waiting-set j [] n i o e h = absurd (cc)
waiting-set j (p ∷ os) n zero o e h = elim (Bool-cases (p.token == 0)) [
  | inl q ↦ rw (q, h) refl
  | inr q ↦
      absurd (
        omega
          (arith, slot_from-above os (λ (o : Orphan). o.token == 0) (suc n) (n + 0) (rw q at e)))
]
waiting-set j (p ∷ os) n (suc i) o e h = elim (Bool-cases (p.token == 0)) [
  | inl q ↦ absurd (ground arith)
  | inr q ↦
      let tail : slot_from (suc n) (λ (o : Orphan). o.token == 0) os ≡ some (suc n + i) =
        ground arith in
      let rest = waiting-set j os (suc n) i o tail h in rw rest (ground arith)
]

client_of-set :
    (cs : List Client) (i k : ℕ) (c : Client) → i < k → client_of (set cs i c) k ≡ client_of cs k
client_of-set [] i k c h = refl
client_of-set (d ∷ cs) i zero c h = absurd (omega arith)
client_of-set (d ∷ cs) zero (suc k) c h = refl
client_of-set (d ∷ cs) (suc i) (suc k) c h = client_of-set cs i k c (omega arith)

served-set :
    (j n i k : ℕ) (cs : List Client) (c : Client)
    → i < k
    → served j n k (set cs i c) ≡ served j n k cs
served-set j zero i k cs c h = refl
served-set j (suc n) i k cs c h =
    rw (client_of-set cs i k c h, served-set j n i (suc k) cs c (omega arith)) refl

-- What the second loop leaves under an id.
abbrev remains : ℕ → List Orphan → WindowStack → Option Window.Window
remains j os s = if waiting j os then none else Window.by_id s j

destroy_orphans_lem :
    (os : List Orphan) (s : WindowStack)
    → IsValid s
    → (j : ℕ)
    → let (os', s', effects) = destroy_orphans os s in
      IsValid s' × (Window.by_id s' j ≡ remains j os s)
unfolding destroy_orphans orphan_destroy
destroy_orphans_lem [] s valid j = (valid, refl)
destroy_orphans_lem (o ∷ os) s valid j = elim (Bool-cases (o.token == 0)) [
  | inl e ↦ rw e (destroy_orphans_lem os s valid j)
  | inr e ↦
      let (valid', here) = reap_lem o.wins s valid j in
      let (last, left) = destroy_orphans_lem os (reap o.wins s).0 valid' j in
      rw e (last, left ∙ ground (arith, here))
]

-- A client is kept only with a token, in the first orphan slot that is free.
keep_slot-some :
    (t : Transport) (c : Client) (k : ℕ)
    → keep_slot t c ≡ some k
    → (slot_from 0 (λ (o : Orphan). o.token == 0) t.orphans ≡ some (0 + k))
      × ((c.token == 0) ≡ false)
unfolding keep_slot
keep_slot-some t c k e =
    elim (Bool-cases
      (not (count_wins c.wins == 0) && not (c.token == 0) && is_shell t.stack c.wins)) [
        | inl h ↦ (ground arith, ground arith)
        | inr h ↦ absurd (ground arith)
      ]

-- One client that is dropped, kept or not.
client_drop-remains :
    (t : Transport) (i now j : ℕ)
    → IsValid t.stack
    → let t' = (client_drop t i now).0 in
      IsValid t'.stack
      × (t'.clients ≡ set t.clients i free_client)
      × (remains j t'.orphans t'.stack
          ≡ (if refers j (client_at t i).wins then none else remains j t.orphans t.stack))
unfolding client_drop
client_drop-remains t i now j valid = elim (Option-cases (keep_slot t (client_at t i))) [
  | inl e ↦
      let (valid', here) = reap_lem (client_at t i).wins t.stack valid j in
      rw (e, client_drop) (valid', refl, rw here (ground arith))
  | inr (k, e) ↦
      let (found, token) = keep_slot-some t (client_at t i) k e in
      rw (e, client_drop)
        (valid, refl, rw (waiting-set j t.orphans 0 k _ found token) (ground arith))
]

drop_clients_lem :
    (n i : ℕ) (now : ℕ → ℕ) (t : Transport) (j : ℕ)
    → IsValid t.stack
    → let t' = (drop_clients n i now t).0 in
      IsValid t'.stack
      × (remains j t'.orphans t'.stack
          ≡ (if served j n i t.clients then none else remains j t.orphans t.stack))
unfolding drop_clients
drop_clients_lem zero i now t j valid = (valid, refl)
drop_clients_lem (suc n) i now t j valid = elim (Bool-cases (is_some (client_at t i).fd)) [
  | inl e ↦
      let t' = (client_drop t i (now i)).0 in
      let (valid', clients, here) = client_drop-remains t i (now i) j valid in
      let (last, rest) = drop_clients_lem n (suc i) now t' j valid' in
      let same : served j n (suc i) t'.clients ≡ served j n (suc i) t.clients =
        rw clients (served-set j n i (suc i) t.clients free_client (omega arith)) in
      rw e (last, rest ∙ rw (same, here) (ground arith))
  | inr e ↦ rw e (drop_clients_lem n (suc i) now t j valid)
]

either {ℓ} :
    {A : Type ℓ} (p q : Bool) (x y : A)
    → (if p then x else if q then x else y) ≡ (if p || q then x else y)
either true q x y = refl
either false q x y = refl

-- `transport_destroy` on a valid stack leaves it valid, and an id names a window still, the same as
-- before, where no connected client and no orphan in use refers to the window. That includes the
-- windows of a shell client, which the first loop only parks for a reconnect.
pub transport_destroy_lem :
    (now : ℕ → ℕ) (e : Endpoint) (t : Transport)
    → IsValid t.stack
    → let (stack, calls) = transport_destroy now e t in
      IsValid stack
      × ((j : ℕ)
          → Window.by_id stack j ≡ (
              if served j cl_max_clients 0 t.clients || waiting j t.orphans
              then none
              else Window.by_id t.stack j))
unfolding transport_destroy
transport_destroy_lem now e t valid =
    let t' = (drop_clients cl_max_clients 0 now t).0 in
    let valid' = λ (j : ℕ). (drop_clients_lem cl_max_clients 0 now t j valid).0 in
    (
      (destroy_orphans_lem t'.orphans t'.stack (valid' 0) 0).0,
      λ j.
          (destroy_orphans_lem t'.orphans t'.stack (valid' j) j).1
          ∙ (drop_clients_lem cl_max_clients 0 now t j valid).1
          ∙ either (served j cl_max_clients 0 t.clients) (waiting j t.orphans) none
              (Window.by_id t.stack j),
    )
