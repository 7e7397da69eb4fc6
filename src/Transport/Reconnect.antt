-- ===== src/Transport/Reconnect.antt =====
-- A shell client that is lost and comes back, in src/transport.c.
use crystalline_lattice.Common.{
  ℕ, zero, suc, ◌+◌, ◌<◌, ◌≡◌, refl, ap, ◌∙◌, Bool, true, false, not, ◌&&◌, none, some, List, [],
  ◌∷◌, arith, ◌==◌, length, Bool-cases, inl, inr, get_elem?, set,
}
use crystalline_lattice.Transport.{
  Transport, Client, Orphan, client_at, set_client, slot_from, free_client, free_orphan,
  cl_reconnect_grace_ms, epoll_del, close,
}
use crystalline_lattice.Transport.Session.{
  client_drop, client_reclaim, keep_slot, count_wins, is_shell, hang_up,
}
use crystalline_lattice.Transport.Dispatch.{greet}

-- Writing what passes the test where nothing did makes that the first that passes it.
slot_from-set {ℓ} :
    {A : Type ℓ} (test : A → Bool) (xs : List A) (n k : ℕ) (y : A)
    → slot_from n test xs ≡ none
    → k < length xs
    → test y ≡ true
    → slot_from n test (set xs k y) ≡ some (n + k)
unfolding slot_from
slot_from-set test [] n k y e h p = absurd (omega arith)
slot_from-set test (x ∷ xs) n zero y e h p = rw p (ap some (omega arith))
slot_from-set test (x ∷ xs) n (suc k) y e h p = elim (Bool-cases (test x)) [
  | inl q ↦ absurd (ground arith)
  | inr q ↦
      rw q
        (slot_from-set test xs (suc n) k y (ground arith) (omega arith) p ∙ ap some (omega arith))
]

slot_from-range {ℓ} :
    {A : Type ℓ} (test : A → Bool) (xs : List A) (n k : ℕ)
    → slot_from n test xs ≡ some k
    → k < n + length xs
unfolding slot_from
slot_from-range test [] n k e = absurd (cc)
slot_from-range test (x ∷ xs) n k e = elim (Bool-cases (test x)) [
  | inl q ↦ ground arith
  | inr q ↦ ground (arith, slot_from-range test xs (suc n) k)
]

get_elem?-set {ℓ} :
    {A : Type ℓ} (xs : List A) (k : ℕ) (y : A) → k < length xs → get_elem? (set xs k y) k ≡ some y
get_elem?-set [] k y h = absurd (omega arith)
get_elem?-set (x ∷ xs) zero y h = refl
get_elem?-set (x ∷ xs) (suc k) y h = get_elem?-set xs k y (omega arith)

length-set {ℓ} : {A : Type ℓ} (xs : List A) (k : ℕ) (y : A) → length (set xs k y) ≡ length xs
length-set [] k y = refl
length-set (x ∷ xs) zero y = refl
length-set (x ∷ xs) (suc k) y = ap suc (length-set xs k y)

client_at-set :
    (cs : List Client) (j : ℕ) (c : Client)
    → j < length cs
    → elim (get_elem? (set cs j c) j) [ none ↦ free_client | some d ↦ d ] ≡ c
client_at-set cs j c h = rw (get_elem?-set cs j c h) refl

module _ (t : Transport) (i now k : ℕ) (kept : keep_slot t (client_at t i) ≡ some k) where
  abbrev lost : Client
  lost = client_at t i

  abbrev held : Orphan
  held = record { token = lost.token; deadline_ms = now + cl_reconnect_grace_ms; wins = lost.wins }

  -- A client is kept only with a window, a token and a free slot.
  kept_slot :
      ((count_wins lost.wins == 0) ≡ false) × ((lost.token == 0) ≡ false) × (k < length t.orphans)
  unfolding keep_slot
  kept_slot =
      elim (Bool-cases
        (not (count_wins lost.wins == 0) && not (lost.token == 0) && is_shell t.stack lost.wins)) [
          | inl e ↦
              let found : slot_from 0 (λ (o : Orphan). o.token == 0) t.orphans ≡ some k =
                ground arith in
              (ground arith, ground arith, omega (arith, slot_from-range _ t.orphans 0 k found))
          | inr e ↦ absurd (ground arith)
        ]

  dropped : client_drop t i now ≡ (
    record t { clients = set t.clients i free_client; orphans = set t.orphans k held },
    hang_up lost,
  )
  unfolding client_drop
  dropped = rw (kept, client_drop) refl

  reclaimed_at :
      (u : Transport) (j : ℕ)
      → u.orphans ≡ set t.orphans k held
      → slot_from 0 (λ (o : Orphan). o.token == lost.token) t.orphans ≡ none
      → client_reclaim u j lost.token ≡ (
        record u {
          clients =
              set u.clients j (record (client_at u j) { wins = lost.wins; token = lost.token });
          orphans = set u.orphans k free_orphan;
        },
        count_wins lost.wins,
      )
  unfolding client_reclaim
  reclaimed_at u j orphans alone =
      let (_, some_token, below) = kept_slot in
      let found : slot_from 0 (λ (o : Orphan). o.token == lost.token) u.orphans ≡ some k =
        rw orphans
          (slot_from-set _ t.orphans 0 k held alone below (ground arith) ∙ ap some (omega arith)) in
      let there : get_elem? u.orphans k ≡ some held =
        rw orphans (get_elem?-set t.orphans k held below) in
      rw (some_token, found, there) refl

  -- A shell client that is dropped into the free orphan slot `k`, and whose token no other orphan
  -- has: its windows stay on the stack as they are, nothing but its descriptor is given up, and a
  -- HELLO with the token from any slot of the table gives the sender the same windows under the
  -- same ids and the same token, uses no new one, changes no window, and frees the orphan slot.
  pub greet-client_drop :
      (j : ℕ)
      → slot_from 0 (λ (o : Orphan). o.token == lost.token) t.orphans ≡ none
      → j < length t.clients
      → let (t', effects) = client_drop t i now in
        let t'' = greet t' j lost.token in
        (t'.stack ≡ t.stack)
        × (effects ≡ elim lost.fd [ none ↦ [] | some fd ↦ epoll_del fd ∷ close fd ∷ [] ])
        × (t''.stack ≡ t.stack)
        × ((client_at t'' j).wins ≡ lost.wins)
        × ((client_at t'' j).token ≡ lost.token)
        × ((client_at t'' j).hello ≡ true)
        × (t''.next_token ≡ t.next_token)
        × (get_elem? t''.orphans k ≡ some free_orphan)
  unfolding greet
  greet-client_drop j alone below =
      let (some_windows, some_token, room) = kept_slot in
      let cs = set t.clients i free_client in
      let t' : Transport = record t { clients = cs; orphans = set t.orphans k held } in
      let g : Transport = set_client t' j (record (client_at t' j) { hello = true }) in
      let first =
        client_at-set cs j (record (client_at t' j) { hello = true })
          (rw (length-set t.clients i free_client) below) in
      let last =
        client_at-set g.clients j (record (client_at g j) { wins = lost.wins; token = lost.token })
          (rw
            (
              length-set cs j (record (client_at t' j) { hello = true }),
              length-set t.clients i free_client,
            )
            below) in
      rw (dropped, reclaimed_at g j refl alone, some_windows)
        (
          refl,
          refl,
          refl,
          ap (λ (c : Client). c.wins) last,
          ap (λ (c : Client). c.token) last,
          ap (λ (c : Client). c.hello) last ∙ ap (λ (c : Client). c.hello) first,
          refl,
          get_elem?-set (set t.orphans k held) k free_orphan
              (rw (length-set t.orphans k held) room),
        )
