-- ===== src/Transport/Welcome.antt =====
-- What a client gets for its HELLO, in `dispatch` and `client_readable` of src/transport.c.
use crystalline_lattice.Common.{
  ℕ, ◌<◌, ◌≡◌, ◌⊎◌, refl, ap, ◌∙◌, Bool, true, false, ◌&&◌, not, ◌||◌, Option, none, some, List, [],
  ◌∷◌, ◌++◌, arith, leb, ltb, ◌==◌, length, get_elem?, Bool-cases, Option-cases, inl, inr,
  get_elem?-set_self, length-set, u32_of_int,
}
use crystalline_lattice.Protocol.{ServerMessage, word, read_hello, cl_magic, cl_version, welcome}
use crystalline_lattice.Transport.{
  Transport, Client, Orphan, send_to, close_fds, Effect, send, client_at, set_client, assign_token,
  slot_from,
}
use crystalline_lattice.Transport.Session.{client_reclaim}
use crystalline_lattice.Transport.Dispatch.{
  Answers, Received, Outcome, welcome_message, datagram, dispatch, handshake, accepts, negotiated,
  greet, client_readable,
}

client_at-set_client :
    (t : Transport) (i : ℕ) (c : Client) → i < length t.clients → client_at (set_client t i c) i ≡ c
client_at-set_client t i c h = rw (get_elem?-set_self t.clients i c h, client_at) refl

-- What stays when a client takes its windows back: the screen, the table, its descriptor and that it
-- has said HELLO; with windows it has the token that it gave, which is not 0.
abbrev Reclaimed : Transport → ℕ → Transport × ℕ → Type 0
Reclaimed t i r =
    (r.0.sw ≡ t.sw)
    × (r.0.sh ≡ t.sh)
    × (length r.0.clients ≡ length t.clients)
    × ((client_at r.0 i).fd ≡ (client_at t i).fd)
    × ((client_at r.0 i).hello ≡ (client_at t i).hello)
    × ((r.1 == 0) ≡ true ⊎ ((client_at r.0 i).token == 0) ≡ false)

client_reclaim-Reclaimed :
    (t : Transport) (i token : ℕ) → i < length t.clients → Reclaimed t i (client_reclaim t i token)
unfolding client_reclaim
client_reclaim-Reclaimed t i token below = elim (Bool-cases (token == 0)) [
  | inl zero ↦ rw zero same
  | inr given ↦ elim (Option-cases (slot_from 0 (λ (o : Orphan). o.token == token) t.orphans)) [
    | inl e ↦ rw (given, e) same
    | inr (k, e) ↦ elim (Option-cases (get_elem? t.orphans k)) [
      | inl e' ↦ rw (given, e, e') same
      | inr (o, e') ↦
          let c : Client = record (client_at t i) { wins = o.wins; token = token } in
          let now = client_at-set_client t i c below in
          rw (given, e, e')
            (
              refl,
              refl,
              length-set t.clients i c,
              ap (λ (d : Client). d.fd) now,
              ap (λ (d : Client). d.hello) now,
              inr (rw now given),
            )
    ]
  ]
]
  where
    same : Reclaimed t i (t, 0)
    same = (refl, refl, refl, refl, refl, inl refl)

-- What the client is after its HELLO.
pub record IsGreeted (t : Transport) (i : ℕ) (t' : Transport) : Type 0 where
  pub same_sw : t'.sw ≡ t.sw
  pub same_sh : t'.sh ≡ t.sh
  pub same_fd : (client_at t' i).fd ≡ (client_at t i).fd
  pub said_hello : (client_at t' i).hello ≡ true
  pub has_token : ((client_at t' i).token == 0) ≡ false

assign_token-nonzero : (t : Transport) → ((assign_token t).0 == 0) ≡ false
unfolding assign_token
assign_token-nonzero t = ground arith

greet-IsGreeted :
    (t : Transport) (i token : ℕ) → i < length t.clients → IsGreeted t i (greet t i token)
unfolding greet
greet-IsGreeted t i token below =
    let c : Client = record (client_at t i) { hello = true } in
    let g = set_client t i c in
    let first = client_at-set_client t i c below in
    let room : i < length g.clients = rw (length-set t.clients i c) below in
    let (sw, sh, size, fd, hello, tok) = client_reclaim-Reclaimed g i token room in
    let u = (client_reclaim g i token).0 in
    elim (Bool-cases ((client_reclaim g i token).1 == 0)) [
      | inl none_back ↦
          let counted = (assign_token u).1 in
          let d : Client = record (client_at counted i) { token = (assign_token u).0 } in
          let same : counted.clients ≡ u.clients = unfold assign_token in refl in
          let last = client_at-set_client counted i d (rw (same, size) room) in
          let same_at : client_at counted i ≡ client_at u i = unfold assign_token in refl in
          rw none_back (record {
            same_sw = unfold assign_token in sw;
            same_sh = unfold assign_token in sh;
            same_fd =
                ap (λ (x : Client). x.fd) last
                ∙ ap (λ (x : Client). x.fd) same_at
                ∙ fd
                ∙ ap (λ (x : Client). x.fd) first;
            said_hello =
                ap (λ (x : Client). x.hello) last
                ∙ ap (λ (x : Client). x.hello) same_at
                ∙ hello
                ∙ ap (λ (x : Client). x.hello) first;
            has_token = rw last (assign_token-nonzero u);
          })
      | inr some_back ↦ rw some_back (record {
        same_sw = sw;
        same_sh = sh;
        same_fd = fd ∙ ap (λ (x : Client). x.fd) first;
        said_hello = hello ∙ ap (λ (x : Client). x.hello) first;
        has_token = elim tok [ inl zero ↦ absurd (ground (arith, zero, some_back)) | inr n ↦ n ];
      })
    ]

-- The datagram is a HELLO that the server accepts.
abbrev pub is_good_hello : List ℕ → Bool
is_good_hello b =
    leb 16 (length b)
    && word 0 b == 1
    && word 1 b == cl_magic
    && leb 1 (word 2 b)
    && leb (word 3 b) (word 2 b)
    && leb (word 3 b) 2

dispatch-hello :
    (t : Transport) (i : ℕ) (b fds : List ℕ) (answers : Answers)
    → (client_at t i).hello ≡ false
    → is_good_hello b ≡ true
    → dispatch t i b fds answers ≡ handshake t i (read_hello b) fds
unfolding dispatch
dispatch-hello t i b fds answers silent good =
    let long : ltb (length b) 4 ≡ false = ground (arith, good) in
    let hello : (not (word 0 b == 1) || ltb (length b) 16) ≡ false = ground (arith, good) in
    rw (long, silent, hello) refl

-- The outcome of an accepted HELLO: the WELCOME is the first effect.
abbrev welcomed : Transport → ℕ → List ℕ → List ℕ → Outcome
welcomed t i b fds =
    let t' = greet t i (read_hello b).reconnect_token in
    record {
      alive = true;
      state = t';
      effects =
          send_to (client_at t' i) (welcome_message t' (client_at t' i).token) ++ close_fds fds;
      dirty = true;
    }

dispatch-welcomed :
    (t : Transport) (i : ℕ) (b fds : List ℕ) (answers : Answers)
    → (client_at t i).hello ≡ false
    → is_good_hello b ≡ true
    → dispatch t i b fds answers ≡ welcomed t i b fds
unfolding handshake accepts negotiated read_hello
dispatch-welcomed t i b fds answers silent good =
    let ok : accepts (read_hello b) ≡ true = ground (arith, good) in
    dispatch-hello t i b fds answers silent good ∙ rw ok refl

welcome_sent :
    (t t' : Transport) (i fd : ℕ)
    → (client_at t' i).fd ≡ some fd
    → t'.sw ≡ t.sw
    → t'.sh ≡ t.sh
    → send_to (client_at t' i) (welcome_message t' (client_at t' i).token)
      ≡ send fd
          (welcome cl_magic cl_version (u32_of_int t.sw) (u32_of_int t.sh) (client_at t' i).token)
        ∷ []
unfolding welcome_message
welcome_sent t t' i fd there sw sh = rw (sw, sh) (sent (client_at t' i).fd there)
  where
    sent :
        {m : ServerMessage} (o : Option ℕ)
        → o ≡ some fd
        → elim o [ none ↦ [] | some f ↦ send f m ∷ [] ] ≡ send fd m ∷ []
    sent none e = absurd (cc)
    sent (some f) e = ground (arith, e)

-- A connected client that has not said HELLO, and whose next datagram is one that the server
-- accepts, is answered: the first thing that `client_readable` does is to send it a WELCOME with the
-- size of the screen, a token that is not 0 and, where the client speaks version 2 or later, the
-- negotiated version, 2. From then on it has said HELLO, so its
-- requests are served.
pub client_readable-welcomes :
    (t : Transport) (i now fd : ℕ) (b fds : List ℕ) (answers : Answers) (rs : List Received)
    → i < length t.clients
    → (client_at t i).fd ≡ some fd
    → (client_at t i).hello ≡ false
    → is_good_hello b ≡ true
    → (version token : ℕ) × (rest : List Effect) × ((token == 0) ≡ false)
      × (version ≡ 2 ⊎ word 2 b < 2)
      × ((client_readable t i now (datagram b fds answers ∷ rs)).1
          ≡ send fd (welcome cl_magic version (u32_of_int t.sw) (u32_of_int t.sh) token) ∷ rest)
      × ((client_at (dispatch t i b fds answers).state i).hello ≡ true)
unfolding client_readable welcome_message
client_readable-welcomes t i now fd b fds answers rs below connected silent good =
    let greeted = greet-IsGreeted t i (read_hello b).reconnect_token below in
    let t' = greet t i (read_hello b).reconnect_token in
    let there : (client_at t' i).fd ≡ some fd = greeted.same_fd ∙ connected in
    let outcome = dispatch-welcomed t i b fds answers silent good in
    let some_bytes : (length b == 0) ≡ false = ground (arith, good) in
    let sent = welcome_sent t t' i fd there greeted.same_sw greeted.same_sh in
    (
      cl_version,
      (client_at t' i).token,
      close_fds fds ++ (client_readable t' i now rs).1,
      greeted.has_token,
      inl refl,
      rw (some_bytes, outcome)
          (ap (λ s. s ++ close_fds fds ++ (client_readable t' i now rs).1) sent),
      rw outcome greeted.said_hello,
    )
