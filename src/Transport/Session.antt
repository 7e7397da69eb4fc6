-- ===== src/Transport/Session.antt =====
-- src/transport.c: reconnect, crash resilience, and a client's life from its connection to its end.
use crystalline_lattice.Common.{
  ℕ, suc, ◌+◌, ◌==◌, leb, Bool, true, false, not, ◌&&◌, ◌||◌, Option, none, some, List, [], ◌∷◌,
  ◌++◌, set, get_elem?, if◌then◌else◌, ℤ, pos, replicate,
}
use crystalline_lattice.Window
use crystalline_lattice.Window.{Window, WindowStack, is_taskbar, is_desktop, is_tray}
use crystalline_lattice.Transport.{
  Transport, Client, ClWin, Orphan, Cursor, Effect, close, epoll_del, win_drop_buffer, slot_from,
  client_at, set_client, free_client, free_orphan, cl_reconnect_grace_ms, cl_max_clients,
}

-- The loop that drops the buffer and the server window of each slot in use.
unfoldable pub reap : List ClWin → WindowStack → WindowStack × List Effect
reap [] stack = (stack, [])
reap (w ∷ ws) stack =
    if w.client_wid == 0
    then reap ws stack
    else let (w', stack', effects) = win_drop_buffer w stack in
      let (stack'', more) = reap ws (Window.destroy stack' w.server_id) in
      (stack'', effects ++ more)

unfoldable pub orphan_destroy : WindowStack → Orphan → WindowStack × List Effect
orphan_destroy stack o = reap o.wins stack

-- The loop of `orphans_expire`: the orphans that are left, the stack, and whether one was reaped.
unfoldable pub expire_from :
    ℕ → List Orphan → WindowStack → List Orphan × WindowStack × List Effect × Bool
expire_from now [] stack = ([], stack, [], false)
expire_from now (o ∷ os) stack =
    let expired = not (o.token == 0) && leb o.deadline_ms now in
    let (here, effects) = if expired then orphan_destroy stack o else (stack, []) in
    let (rest, stack', more, changed) = expire_from now os here in
    ((if expired then free_orphan else o) ∷ rest, stack', effects ++ more, expired || changed)

unfoldable pub orphans_expire : Transport → ℕ → Transport × List Effect × Bool
orphans_expire t now =
    let (os, stack, effects, changed) = expire_from now t.orphans t.stack in
    (record t { orphans = os; stack = stack }, effects, changed)

-- How many slots are in use.
unfoldable pub count_wins : List ClWin → ℕ
count_wins [] = 0
count_wins (w ∷ ws) = if w.client_wid == 0 then count_wins ws else suc (count_wins ws)

unfoldable pub client_reclaim : Transport → ℕ → ℕ → Transport × ℕ
client_reclaim t i token =
    if token == 0 then (t, 0) else elim (slot_from 0 (λ (o : Orphan). o.token == token) t.orphans) [
      | none ↦ (t, 0)
      | some k ↦ elim (get_elem? t.orphans k) [
        | none ↦ (t, 0)
        | some o ↦ (
          record t {
            clients = set t.clients i (record (client_at t i) { wins = o.wins; token = token });
            orphans = set t.orphans k free_orphan;
          },
          count_wins o.wins,
        )
      ]
    ]

-- Whether a slot holds a taskbar, a desktop or a tray.
unfoldable pub is_shell_win : WindowStack → ClWin → Bool
is_shell_win stack w = not (w.client_wid == 0) && elim (Window.by_id stack w.server_id) [
  | none ↦ false
  | some v ↦ is_taskbar v.role || is_desktop v.role || is_tray v.role
]

unfoldable pub is_shell : WindowStack → List ClWin → Bool
is_shell stack [] = false
is_shell stack (w ∷ ws) = is_shell_win stack w || is_shell stack ws

-- The free orphan slot that keeps the windows of a lost client, if they are kept.
unfoldable pub keep_slot : Transport → Client → Option ℕ
keep_slot t c =
    if not (count_wins c.wins == 0) && not (c.token == 0) && is_shell t.stack c.wins
    then slot_from 0 (λ (o : Orphan). o.token == 0) t.orphans
    else none

abbrev pub hang_up : Client → List Effect
hang_up c = elim c.fd [ none ↦ [] | some fd ↦ epoll_del fd ∷ close fd ∷ [] ]

-- Every path sets `*dirty`.
unfoldable pub client_drop : Transport → ℕ → ℕ → Transport × List Effect
client_drop t i now =
    let c = client_at t i in
    elim (keep_slot t c) [
      | some k ↦ (
        record t {
          clients = set t.clients i free_client;
          orphans = set t.orphans k (record {
            token = c.token;
            deadline_ms = now + cl_reconnect_grace_ms;
            wins = c.wins;
          });
        },
        hang_up c,
      )
      | none ↦
          let (stack, effects) = reap c.wins t.stack in
          (record t { clients = set t.clients i free_client; stack = stack }, effects ++ hang_up c)
    ]

abbrev pub no_cursor : Cursor
no_cursor = record {
  custom = false;
  hidden = false;
  w = pos 0;
  h = pos 0;
  hotspot_x = pos 0;
  hotspot_y = pos 0;
  argb = [];
}

-- `transport_create`, once its memory and its epoll descriptor are there.
unfoldable pub create : WindowStack → ℤ → ℤ → Transport
create stack sw sh = record {
  stack = stack;
  sw = sw;
  sh = sh;
  clients = replicate cl_max_clients free_client;
  orphans = replicate cl_max_clients free_orphan;
  focused_server_id = 0;
  next_token = 0;
  cursor = no_cursor;
}

-- `registered` is the answer of `epoll_ctl`. The result is whether the client was taken.
unfoldable pub add_client : Transport → ℕ → Bool → Transport × List Effect × Bool
add_client t fd registered =
    elim (slot_from 0 (λ (c : Client). elim c.fd [ none ↦ true | some _ ↦ false ]) t.clients) [
      | none ↦ (t, close fd ∷ [], false)
      | some i ↦
          if registered
          then (set_client t i (record free_client { fd = some fd }), [], true)
          else (set_client t i free_client, close fd ∷ [], false)
    ]
