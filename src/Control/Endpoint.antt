-- ===== src/Control/Endpoint.antt =====
-- src/control.c: the control socket, from `control_create` to `control_destroy`. What the kernel and
-- the allocator answer is an argument.
use crystalline_lattice.Common.{
  ℕ, ◌-◌, Bool, true, false, Option, none, some, List, [], ◌∷◌, ◌++◌, map, take, if◌then◌else◌, not,
  ℤ,
}
use crystalline_lattice.Protocol.Link.{or_path, tmp}
use crystalline_lattice.Control.{DisplayMode, Connection, ControlEffect, control_process}

-- `struct control`, less its display.
pub record Control : Type 0 where
  pub listen_fd : Option ℕ
  pub path : List ℕ

-- `control_create` with memory.
unfoldable pub control_create : Control
control_create = record { listen_fd = none; path = [] }

-- "glacier-ctl"
abbrev socket_name : List ℕ
socket_name = b'g' ∷ b'l' ∷ b'a' ∷ b'c' ∷ b'i' ∷ b'e' ∷ b'r' ∷ 45 ∷ b'c' ∷ b't' ∷ b'l' ∷ []

-- `glctl_default_socket_path` with `GLCTL_SOCKET_ENV` and `XDG_RUNTIME_DIR` of the environment.
unfoldable pub glctl_default_socket_path : Option (List ℕ) → Option (List ℕ) → ℕ → List ℕ
glctl_default_socket_path given runtime_dir len =
    or_path given (take (len - 1) (or_path runtime_dir tmp (λ dir. dir) ++ 47 ∷ socket_name))
      (λ path. take (len - 1) path)

-- `sizeof(((struct sockaddr_un *)0)->sun_path)`
abbrev pub path_size : ℕ
path_size = 108

-- What the kernel is asked, in order.
pub data Call : Type 0 where
  unlink : List ℕ → Call
  bind : ℕ → List ℕ → Call
  listen : ℕ → Call
  shut : ℕ → Call
  perform : ControlEffect → Call

-- `control_listen` once it has its socket; `bound` and `listening` are whether `bind` and `listen`
-- succeed.
unfoldable pub listen_on : List ℕ → ℕ → Bool → Bool → Control → Control × List Call × Bool
listen_on resolved fd bound listening c =
    let named = unlink resolved ∷ bind fd resolved ∷ [] in
    if not bound
    then (c, named ++ shut fd ∷ [], false)
    else if not listening
    then (c, named ++ listen fd ∷ shut fd ∷ [], false)
    else (record { listen_fd = some fd; path = resolved }, named ++ listen fd ∷ [], true)

-- `control_listen`, with what `socket` answers and what the environment holds.
unfoldable pub control_listen :
    Option (List ℕ)
    → Option (List ℕ)
    → Option (List ℕ)
    → Option ℕ
    → Bool
    → Bool
    → Control
    → Control × List Call × Bool
control_listen path given runtime_dir none bound listening c = (c, [], false)
control_listen path given runtime_dir (some fd) bound listening c =
    let resolved : List ℕ = elim path [
      | none ↦ glctl_default_socket_path given runtime_dir path_size
      | some p ↦ take (path_size - 1) p
    ] in
    listen_on resolved fd bound listening c

abbrev pub unlink_path : List ℕ → List Call
unlink_path [] = []
unlink_path (b ∷ bs) = unlink (b ∷ bs) ∷ []

unfoldable pub control_destroy : Control → List Call
control_destroy c = elim c.listen_fd [ none ↦ [] | some fd ↦ shut fd ∷ [] ] ++ unlink_path c.path

-- `server_run` from `control_create` on: `created` is whether there was memory. Without the control
-- socket, the server runs on.
unfoldable pub open_control :
    Bool → Option (List ℕ) → Option (List ℕ) → Option ℕ → Bool → Bool → Option Control × List Call
open_control created given runtime_dir socket bound listening =
    let (c, calls, ok) =
      control_listen none given runtime_dir socket bound listening control_create in
    if not created
    then (none, [])
    else if ok
    then (some c, calls)
    else (none, calls ++ control_destroy c)

module _ {S : Type 0} (apply : S → ℤ → ℤ → ℤ → Bool × S)
    (modes : S → Option (DisplayMode × List DisplayMode)) where
  -- The rounds of the main loop in which the socket is readable.
  unfoldable pub serve_rounds : S → List (List Connection) → S × List Call
  serve_rounds s [] = (s, [])
  serve_rounds s (cs ∷ rounds) =
      let (s', effects) = control_process apply modes s cs in
      let (s'', more) = serve_rounds s' rounds in (s'', map (λ e. perform e) effects ++ more)

  -- The main loop and the end of `server_run`.
  unfoldable pub close_control : Option Control → S → List (List Connection) → List Call
  close_control none s rounds = []
  close_control (some c) s rounds = (serve_rounds s rounds).1 ++ control_destroy c
