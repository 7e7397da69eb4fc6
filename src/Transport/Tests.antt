-- ===== src/Transport/Tests.antt =====
-- The theorems on src/transport.c, each at a concrete transport.
use crystalline_lattice.Common.{
  ℕ, ◌<◌, ◌⊎◌, ◌≡◌, refl, true, false, none, some, List, [], ◌∷◌, arith, pos, negsuc, if◌then◌else◌,
  get_elem?, All, ◌==◌, ◌||◌, u32_of_int,
}
use crystalline_lattice.Window
use crystalline_lattice.Window.{Window, WindowStack, normal, taskbar, new_window}
use crystalline_lattice.Window.Ids.{has}
use crystalline_lattice.Window.Invariant
use crystalline_lattice.Protocol.{
  word, words_bytes, u32_at, read_commit, cl_magic, welcome, CreateWindow,
}
use crystalline_lattice.Protocol.Messages.{create_window, client_bytes}
use crystalline_lattice.Transport.Delivery.{handler, dispatch-client_bytes}
use crystalline_lattice.Transport.{
  Transport, Client, ClWin, Orphan, Effect, send, epoll_del, close, client_at, free_client,
  free_orphan, free_win, slot_from, win_drop_buffer, cl_max_clients,
}
use crystalline_lattice.Transport.Session.{
  create, client_drop, orphans_expire, orphan_destroy, reap, keep_slot, count_wins, is_shell,
  is_shell_win,
}
use crystalline_lattice.Transport.Dispatch.{
  Answers, dispatch, client_readable, greet, datagram, would_block, accepting, readable, hung_up,
}
use crystalline_lattice.Transport.Descriptors.{closed}
use crystalline_lattice.Transport.Descriptors.Dispatch.{dispatch-closed}
use crystalline_lattice.Transport.Handshake.{dispatch-gate}
use crystalline_lattice.Transport.Welcome.{client_readable-welcomes}
use crystalline_lattice.Transport.Reap.{
  client_drop-app, refers, orphans_expire_lem, is_expired, expiring,
}
use crystalline_lattice.Transport.Reconnect.{greet-client_drop}
use crystalline_lattice.Transport.Stack.Process.{run, run_lem}
use crystalline_lattice.Transport.Teardown.{waiting, served, transport_destroy_lem}
use crystalline_lattice.Transport.Endpoint.{
  Endpoint, Accepted, unlink, bind, listen, epoll_add, close_fd, listen_on, transport_listen,
  drop_clients, destroy_orphans, transport_destroy,
}

abbrev quiet : Answers
quiet = record { buffer = none; pixels = none }

-- A HELLO of version 2, and a CREATE_WINDOW of window 7.
abbrev hello_bytes : List ℕ
hello_bytes = words_bytes (1 ∷ cl_magic ∷ 2 ∷ 1 ∷ 0 ∷ [])

abbrev create_bytes : List ℕ
create_bytes = words_bytes (2 ∷ 7 ∷ 0 ∷ 10 ∷ 20 ∷ 64 ∷ 48 ∷ [])

run_lem_example :
    Invariant.IsValid
      (run
        ((5, accepting ((9, true) ∷ []) ∷ [])
          ∷ (
            6,
            readable 9 (
                  datagram hello_bytes [] quiet ∷ datagram create_bytes [] quiet ∷ would_block ∷ [])
                ∷ [],
          )
          ∷ (7, hung_up 9 ∷ [])
          ∷ [])
        (create Window.init (pos 200) (pos 150))).stack
run_lem_example =
    run_lem (pos 200) (pos 150)
      ((5, accepting ((9, true) ∷ []) ∷ [])
        ∷ (
          6,
          readable 9
                (datagram hello_bytes [] quiet ∷ datagram create_bytes [] quiet ∷ would_block ∷ [])
              ∷ [],
        )
        ∷ (7, hung_up 9 ∷ [])
        ∷ [])
      (omega arith)

-- A taskbar, of the first client, and a window, of the second.
abbrev bar : Window
bar = new_window 1 taskbar (pos 0) (pos 140) (pos 200) (pos 10) 0 none

abbrev app : Window
app = new_window 2 normal (pos 30) (pos 20) (pos 50) (pos 40) 0 none

abbrev both : WindowStack
both = record { windows = bar ∷ app ∷ []; focus_id = 2; next_id = 3 }

abbrev slot : ℕ → ℕ → ClWin
slot wid id = record { client_wid = wid; server_id = id; buf = none; buf_len = 0 }

abbrev client : ℕ → ℕ → ClWin → Client
client fd token w = record { fd = some fd; hello = true; token = token; wins = w ∷ [] }

-- The third client has not said HELLO.
abbrev busy : Transport
busy = record (create both (pos 200) (pos 150)) {
  clients =
      client 9 1 (slot 7 1)
      ∷ client 10 2 (slot 7 2)
      ∷ record { fd = some 11; hello = false; token = 0; wins = free_win ∷ [] }
      ∷ [];
  orphans = free_orphan ∷ free_orphan ∷ [];
  next_token = 2;
}

both-IsValid : Invariant.IsValid both
unfolding new_window has
both-IsValid = ground arith

-- A COMMIT with a buffer and a fence that it announces.
abbrev commit_bytes : List ℕ
commit_bytes = words_bytes (4 ∷ 7 ∷ 0 ∷ 4 ∷ 2 ∷ 16 ∷ 0x34325258 ∷ 0 ∷ 0 ∷ 0 ∷ 1 ∷ 0 ∷ [])

dispatch-closed_example :
    closed (dispatch busy 1 commit_bytes (20 ∷ 21 ∷ []) quiet).effects ≡ 21 ∷ 20 ∷ []
unfolding words_bytes u32_at read_commit
dispatch-closed_example = dispatch-closed busy 1 commit_bytes (20 ∷ 21 ∷ []) quiet

dispatch-gate_example :
    ((dispatch busy 2 hello_bytes [] quiet).alive ≡ true)
    × ((dispatch busy 2 hello_bytes [] quiet).alive ≡ false
        → (dispatch busy 2 hello_bytes [] quiet).state ≡ busy)
unfolding words_bytes u32_at
dispatch-gate_example = dispatch-gate busy 2 hello_bytes [] quiet refl

-- A CREATE_WINDOW at negative coordinates.
abbrev off_screen : CreateWindow
off_screen = record { wid = 8; role = 0; x = negsuc 9; y = negsuc 0; w = 64; h = 48 }

dispatch-client_bytes_example :
    dispatch busy 1 (client_bytes (create_window off_screen)) (20 ∷ []) quiet
    ≡ handler busy 1 (create_window off_screen) (20 ∷ []) quiet
dispatch-client_bytes_example =
    dispatch-client_bytes busy 1 (create_window off_screen) (20 ∷ []) quiet (
      omega arith,
      omega arith,
      (omega arith, omega arith),
      (omega arith, omega arith),
      omega arith,
      omega arith,
    )

client_drop-app_example :
    let (t', effects) = client_drop busy 1 77 in
    (client_at t' 1 ≡ free_client)
    × ((j : ℕ)
        → Window.by_id t'.stack j
          ≡ (if refers j (slot 7 2 ∷ []) then none else Window.by_id both j))
    × (t'.orphans ≡ busy.orphans)
    × (effects ≡ epoll_del 10 ∷ close 10 ∷ [])
unfolding create is_shell is_shell_win Window.by_id Window.index Window.index_from new_window
client_drop-app_example = client_drop-app busy 1 77 both-IsValid refl

greet-client_drop_example :
    let (t', effects) = client_drop busy 0 77 in
    let t'' = greet t' 2 1 in
    (t'.stack ≡ both)
    × (effects ≡ epoll_del 9 ∷ close 9 ∷ [])
    × (t''.stack ≡ both)
    × ((client_at t'' 2).wins ≡ slot 7 1 ∷ [])
    × ((client_at t'' 2).token ≡ 1)
    × ((client_at t'' 2).hello ≡ true)
    × (t''.next_token ≡ 2)
    × (get_elem? t''.orphans 0 ≡ some free_orphan)
unfolding keep_slot count_wins is_shell is_shell_win Window.by_id Window.index Window.index_from
    create new_window slot_from
greet-client_drop_example = greet-client_drop busy 0 77 0 refl 2 refl (omega arith)

-- The taskbar's client was dropped at 77.
abbrev held_bar : Transport
held_bar = record busy {
  clients = free_client ∷ [];
  orphans = record { token = 1; deadline_ms = 5077; wins = slot 7 1 ∷ [] } ∷ free_orphan ∷ [];
}

orphans_expire_lem_example :
    let t' = (orphans_expire held_bar 5077).0 in
    All (λ (o : Orphan). is_expired 5077 o ≡ false) t'.orphans
    × ((j : ℕ)
        → Window.by_id t'.stack j
          ≡ (if expiring 5077 j held_bar.orphans then none else Window.by_id both j))
unfolding create
orphans_expire_lem_example = orphans_expire_lem held_bar 5077 both-IsValid

-- A table with one client that has just connected.
abbrev newcomer : Transport
newcomer = record (create Window.init (pos 200) (pos 150)) {
  clients = record free_client { fd = some 9 } ∷ [];
}

client_readable-welcomes_example :
    (version token : ℕ) × (rest : List Effect) × ((token == 0) ≡ false)
    × (version ≡ 2 ⊎ word 2 hello_bytes < 2)
    × ((client_readable newcomer 0 6 (datagram hello_bytes [] quiet ∷ [])).1
        ≡ send 9 (welcome cl_magic version 200 150 token) ∷ rest)
    × ((client_at (dispatch newcomer 0 hello_bytes [] quiet).state 0).hello ≡ true)
unfolding create u32_of_int words_bytes u32_at
client_readable-welcomes_example =
    client_readable-welcomes newcomer 0 6 9 hello_bytes [] quiet [] (omega arith) refl refl refl

abbrev unbound : Endpoint
unbound = record { epoll_fd = 3; listen_fd = none; path = [] }

abbrev bound : Endpoint
bound = record { epoll_fd = 3; listen_fd = some 4; path = 47 ∷ 115 ∷ [] }

-- The socket is bound to its path, unless a call fails, and then it is closed.
listen_binds :
    (ok : Accepted)
    → ok ≡ record { bound = true; listening = true; registered = true }
    → transport_listen (some (47 ∷ 115 ∷ [])) none none (some 4) ok unbound
      ≡ (bound, unlink (47 ∷ 115 ∷ []) ∷ bind 4 (47 ∷ 115 ∷ []) ∷ listen 4 ∷ epoll_add 4 ∷ [], true)
unfolding transport_listen listen_on
listen_binds ok e = rw e refl

listen_refused :
    transport_listen
      (some (47 ∷ 115 ∷ []))
      none
      none
      (some 4)
      (record { bound = false; listening = false; registered = false })
      unbound
    ≡ (unbound, unlink (47 ∷ 115 ∷ []) ∷ bind 4 (47 ∷ 115 ∷ []) ∷ close_fd 4 ∷ [], false)
unfolding transport_listen listen_on
listen_refused = refl

-- The taskbar's client is dropped, its window is parked, and then it goes all the same.
transport_destroy_lem_example :
    let (stack, calls) = transport_destroy (λ _. 100) bound busy in
    Invariant.IsValid stack
    × ((j : ℕ)
        → Window.by_id stack j ≡ (
            if served j cl_max_clients 0 busy.clients || waiting j busy.orphans
            then none
            else Window.by_id both j))
unfolding create
transport_destroy_lem_example = transport_destroy_lem (λ _. 100) bound busy both-IsValid

-- The windows that wait for their client go with the transport.
destroy_reaps : Window.by_id (transport_destroy (λ _. 100) bound held_bar).0 1 ≡ none
unfolding transport_destroy drop_clients destroy_orphans Window.by_id Window.index Window.index_from
    orphan_destroy reap Window.destroy win_drop_buffer create new_window Window.shift_down
    Window.copy
destroy_reaps = refl
