-- ===== src/Transport/Endpoint.antt =====
-- src/transport.c: the listening socket, from `transport_listen` to `transport_destroy`. What the
-- kernel answers is an argument.
use crystalline_lattice.Common.{
  ℕ, zero, suc, ◌-◌, ◌==◌, Bool, true, false, not, Option, none, some, List, [], ◌∷◌, ◌++◌, take,
  if◌then◌else◌, is_some,
}
use crystalline_lattice.Window.{WindowStack}
use crystalline_lattice.Protocol.Link.{cl_default_socket_path}
use crystalline_lattice.Transport.{
  Transport, Orphan, Effect, client_at, free_orphan, cl_max_clients,
}
use crystalline_lattice.Transport.Session.{client_drop, orphan_destroy}

-- The fields of `struct transport` that only these functions write.
pub record Endpoint : Type 0 where
  pub epoll_fd : ℕ
  pub listen_fd : Option ℕ
  pub path : List ℕ

-- What the kernel is asked, in order.
pub data Call : Type 0 where
  unlink : List ℕ → Call
  bind : ℕ → List ℕ → Call
  listen : ℕ → Call
  epoll_add : ℕ → Call
  close_fd : ℕ → Call
  perform : Effect → Call

-- `sizeof(((struct sockaddr_un *)0)->sun_path)`
abbrev path_size : ℕ
path_size = 108

-- What `bind`, `listen` and `epoll_ctl` answer: whether they succeed.
pub record Accepted : Type 0 where
  pub bound : Bool
  pub listening : Bool
  pub registered : Bool

-- `transport_listen` once it has its socket.
unfoldable pub listen_on : List ℕ → ℕ → Accepted → Endpoint → Endpoint × List Call × Bool
listen_on resolved fd ok e =
    let named = unlink resolved ∷ bind fd resolved ∷ [] in
    if not ok.bound
    then (e, named ++ close_fd fd ∷ [], false)
    else if not ok.listening
    then (e, named ++ listen fd ∷ close_fd fd ∷ [], false)
    else if not ok.registered
    then (e, named ++ listen fd ∷ epoll_add fd ∷ close_fd fd ∷ [], false)
    else (
      record e { listen_fd = some fd; path = resolved },
      named ++ listen fd ∷ epoll_add fd ∷ [],
      true,
    )

-- `socket` is the answer of `socket`, and `given` and `runtime_dir` are what the environment holds.
unfoldable pub transport_listen :
    Option (List ℕ)
    → Option (List ℕ)
    → Option (List ℕ)
    → Option ℕ
    → Accepted
    → Endpoint
    → Endpoint × List Call × Bool
transport_listen path given runtime_dir none ok e = (e, [], false)
transport_listen path given runtime_dir (some fd) ok e =
    let resolved : List ℕ = elim path [
      | none ↦ cl_default_socket_path given runtime_dir path_size
      | some p ↦ take (path_size - 1) p
    ] in
    listen_on resolved fd ok e

-- The first loop of `transport_destroy`, from the client `i` on, with `n` to go; `now` is the clock
-- at each of them.
unfoldable pub drop_clients : ℕ → ℕ → (ℕ → ℕ) → Transport → Transport × List Effect
drop_clients zero i now t = (t, [])
drop_clients (suc n) i now t =
    let (t', here) = if is_some (client_at t i).fd then client_drop t i (now i) else (t, []) in
    let (t'', more) = drop_clients n (suc i) now t' in (t'', here ++ more)

-- The second one.
unfoldable pub destroy_orphans : List Orphan → WindowStack → List Orphan × WindowStack × List Effect
destroy_orphans [] stack = ([], stack, [])
destroy_orphans (o ∷ os) stack =
    let (stack', here) = if o.token == 0 then (stack, []) else orphan_destroy stack o in
    let (os', stack'', more) = destroy_orphans os stack' in
    ((if o.token == 0 then o else free_orphan) ∷ os', stack'', here ++ more)

abbrev performed : List Effect → List Call
performed [] = []
performed (x ∷ xs) = perform x ∷ performed xs

abbrev unlink_path : List ℕ → List Call
unlink_path [] = []
unlink_path (c ∷ cs) = unlink (c ∷ cs) ∷ []

-- The window stack outlives the transport.
unfoldable pub transport_destroy : (ℕ → ℕ) → Endpoint → Transport → WindowStack × List Call
transport_destroy now e t =
    let (t', dropped) = drop_clients cl_max_clients 0 now t in
    let (_, stack, reaped) = destroy_orphans t'.orphans t'.stack in
    (
      stack,
      performed (dropped ++ reaped)
          ++ elim e.listen_fd [ none ↦ [] | some fd ↦ close_fd fd ∷ [] ]
          ++ unlink_path e.path
          ++ close_fd e.epoll_fd ∷ [],
    )
