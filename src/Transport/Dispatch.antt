-- ===== src/Transport/Dispatch.antt =====
-- src/transport.c: the handshake, the dispatch of a datagram, and the loops that feed it.
use crystalline_lattice.Common.{
  ℕ, ◌==◌, ltb, leb, Bool, true, false, not, ◌&&◌, ◌||◌, Option, none, some, List, [], ◌∷◌, ◌++◌,
  if◌then◌else◌, length, u32_of_int,
}
use crystalline_lattice.Protocol.{
  ServerMessage, Hello, read_hello, read_create_window, read_set_title, read_commit,
  read_destroy_window, read_set_geometry, read_set_cursor, word, welcome, cl_magic, cl_version,
  cl_min_version,
}
use crystalline_lattice.Protocol.MsgType
use crystalline_lattice.Protocol.Size
use crystalline_lattice.Transport.{
  Transport, Client, Effect, close_fds, client_at, set_client, assign_token, send_to, slot_from,
}
use crystalline_lattice.Transport.Session.{client_reclaim, client_drop, orphans_expire, add_client}
use crystalline_lattice.Transport.Handlers.{
  on_create_window, on_set_title, on_commit, on_destroy_window, on_set_geometry, on_set_cursor,
}

-- What the kernel answers where the handler of a datagram maps a buffer or a cursor.
pub record Answers : Type 0 where
  pub buffer : Option ℕ
  pub pixels : Option (List ℕ)

-- What a handler leaves: whether the client stays, the state, the effects, and whether the scene
-- changed.
pub record Outcome : Type 0 where
  pub alive : Bool
  pub state : Transport
  pub effects : List Effect
  pub dirty : Bool

abbrev pub refuse : Transport → List ℕ → Outcome
refuse t fds = record { alive = false; state = t; effects = close_fds fds; dirty = false }

abbrev pub outcome : Transport × List Effect → Bool → Outcome
outcome r dirty = record { alive = true; state = r.0; effects = r.1; dirty = dirty }

-- The version that both ends speak.
unfoldable pub negotiated : Hello → ℕ
negotiated h = if ltb h.version cl_version then h.version else cl_version

unfoldable pub accepts : Hello → Bool
accepts h =
    h.magic == cl_magic && leb cl_min_version (negotiated h) && leb h.min_version (negotiated h)

-- The state of the `!c->hello` branch where the client is accepted, with its windows again or with a
-- new token.
unfoldable pub greet : Transport → ℕ → ℕ → Transport
greet t i token =
    let greeted = set_client t i (record (client_at t i) { hello = true }) in
    let (t', reclaimed) = client_reclaim greeted i token in
    let (tok, counted) = assign_token t' in
    if reclaimed == 0
    then set_client counted i (record (client_at counted i) { token = tok })
    else t'

unfoldable pub welcome_message : Transport → ℕ → ServerMessage
welcome_message t token = welcome cl_magic cl_version (u32_of_int t.sw) (u32_of_int t.sh) token

-- The `!c->hello` branch, past its length check.
unfoldable pub handshake : Transport → ℕ → Hello → List ℕ → Outcome
handshake t i h fds =
    let t' = greet t i h.reconnect_token in
    let c = client_at t' i in
    if accepts h
    then record {
      alive = true;
      state = t';
      effects = send_to c (welcome_message t' c.token) ++ close_fds fds;
      dirty = true;
    }
    else refuse t fds

-- A handler that leaves the descriptors to `dispatch`, which closes them last.
abbrev pub closing : List ℕ → Transport × List Effect → Transport × List Effect
closing fds r = (r.0, r.1 ++ close_fds fds)

-- `NEED`: what a message comes to where the datagram is as long as its structure.
abbrev pub need : ℕ → Transport → List ℕ → List ℕ → Outcome → Outcome
need size t b fds o = if leb size (length b) then o else refuse t fds

-- The `switch`.
unfoldable pub handle : Transport → ℕ → ℕ → List ℕ → List ℕ → Answers → Outcome
handle t i type b fds answers =
    if type == MsgType.create_window
    then need Size.create_window t b fds
        (outcome (closing fds (on_create_window t i (read_create_window b))) true)
    else if type == MsgType.set_title
    then need Size.set_title t b fds
        (outcome (closing fds (on_set_title t i (read_set_title b), [])) false)
    else if type == MsgType.commit
    then need Size.commit t b fds (outcome (on_commit t i (read_commit b) fds answers.buffer) true)
    else if type == MsgType.destroy_window
    then need Size.destroy_window t b fds
        (outcome (closing fds (on_destroy_window t i (read_destroy_window b))) true)
    else if type == MsgType.set_geometry
    then need Size.set_geometry t b fds
        (outcome (closing fds (on_set_geometry t i (read_set_geometry b), [])) true)
    else if type == MsgType.set_cursor
    then need Size.set_cursor t b fds
        (outcome (on_set_cursor t (read_set_cursor b) fds answers.pixels) true)
    else outcome (closing fds (t, [])) false

unfoldable pub dispatch : Transport → ℕ → List ℕ → List ℕ → Answers → Outcome
dispatch t i b fds answers =
    if ltb (length b) 4
    then refuse t fds
    else if (client_at t i).hello
    then handle t i (word 0 b) b fds answers
    else if not (word 0 b == MsgType.hello) || ltb (length b) Size.hello_v1
    then refuse t fds
    else handshake t i (read_hello b) fds

-- What `cl_recv` answers: a datagram with its descriptors, or no more for now, or the end of the
-- connection, by a shutdown or an error.
pub data Received : Type 0 where
  datagram : List ℕ → List ℕ → Answers → Received
  would_block : Received
  ended : Received

-- The loop of `client_readable`; what the socket has to give ends in `would_block` or `ended`, or
-- the loop waits for no more than it is given. An empty datagram reads as the end of the connection.
unfoldable pub client_readable : Transport → ℕ → ℕ → List Received → Transport × List Effect × Bool
client_readable t i now [] = (t, [], false)
client_readable t i now (would_block ∷ rs) = (t, [], false)
client_readable t i now (ended ∷ rs) =
    let (t', effects) = client_drop t i now in (t', effects, true)
client_readable t i now (datagram b fds answers ∷ rs) =
    let o = dispatch t i b fds answers in
    let (dropped, end) = client_drop o.state i now in
    let (t', more, changed) = client_readable o.state i now rs in
    let (gone, hung) = client_drop t i now in
    if length b == 0
    then (gone, hung, true)
    else if o.alive
    then (t', o.effects ++ more, o.dirty || changed)
    else (dropped, o.effects ++ end, true)

-- An event of `epoll_wait`: connections to accept, each with the answer of `epoll_ctl`, a client
-- that hung up, or one with datagrams to read.
pub data Ready : Type 0 where
  accepting : List (ℕ × Bool) → Ready
  hung_up : ℕ → Ready
  readable : ℕ → List Received → Ready

unfoldable pub client_by_fd : Transport → ℕ → Option ℕ
client_by_fd t fd =
    slot_from 0 (λ (c : Client). elim c.fd [ none ↦ false | some f ↦ f == fd ]) t.clients

unfoldable pub accept_pending : Transport → List (ℕ × Bool) → Transport × List Effect
accept_pending t [] = (t, [])
accept_pending t ((fd, registered) ∷ rest) =
    let (t', effects, _) = add_client t fd registered in
    let (t'', more) = accept_pending t' rest in (t'', effects ++ more)

unfoldable pub serve : Transport → ℕ → Ready → Transport × List Effect × Bool
serve t now (accepting fds) = let (t', effects) = accept_pending t fds in (t', effects, false)
serve t now (hung_up fd) = elim (client_by_fd t fd) [
  | none ↦ (t, [], false)
  | some i ↦ let (t', effects) = client_drop t i now in (t', effects, true)
]
serve t now (readable fd rs) = elim (client_by_fd t fd) [
  | none ↦ (t, [], false)
  | some i ↦ client_readable t i now rs
]

unfoldable pub serve_all : Transport → ℕ → List Ready → Transport × List Effect × Bool
serve_all t now [] = (t, [], false)
serve_all t now (e ∷ es) =
    let (t', effects, dirty) = serve t now e in
    let (t'', more, changed) = serve_all t' now es in (t'', effects ++ more, dirty || changed)

-- One round of the transport, at one reading of the clock.
unfoldable pub process : Transport → ℕ → List Ready → Transport × List Effect × Bool
process t now events =
    let (t', effects, dirty) = orphans_expire t now in
    let (t'', more, changed) = serve_all t' now events in (t'', effects ++ more, dirty || changed)
