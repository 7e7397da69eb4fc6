-- ===== src/Transport/Descriptors.antt =====
-- The descriptors that arrive with a datagram, in src/transport.c: each is closed once.
pub mod Dispatch
use crystalline_lattice.Common.{
  ℕ, zero, suc, ◌+◌, ◌≤◌, ◌<◌, ◌≡◌, ◌≢◌, refl, sym, ap, ◌∙◌, Bool, true, false, not, ◌&&◌, ◌||◌,
  Option, none, some, List, [], ◌∷◌, ◌++◌, arith, ltb, leb, ◌==◌, if◌then◌else◌, length, Bool-cases,
  Option-cases, inl, inr, get_elem?, set, ℤ, pos, leb_ℤ, ltb_ℤ, int_of_u32, u32_of_int,
}
use mathlib.Core.List.{append-nil}
use crystalline_lattice.Window
use crystalline_lattice.Window.{WindowStack, is_desktop, is_normal}
use crystalline_lattice.Protocol.{
  configure, focus, CreateWindow, SetTitle, Commit, DestroyWindow, SetGeometry, SetCursor, word,
  read_commit, read_create_window, read_destroy_window, read_set_cursor, read_hello, Hello,
  ServerMessage, cl_buf_shm, cl_format_xrgb8888,
}
use crystalline_lattice.Protocol.MsgType
use crystalline_lattice.Protocol.Size
use crystalline_lattice.Transport.{
  Transport, Client, ClWin, Effect, send, close, wait_fence, unmap, epoll_del, close_fds,
  win_drop_buffer, win_find, win_alloc, set_win, client_at, win_at, send_to, role_from_wire,
}
use crystalline_lattice.Transport.Routing.{notify_focus, find_by_server_id, send_owner}
use crystalline_lattice.Transport.Handlers.{
  place, send_placed, take_created, set_app_decorated, place_created, on_create_window, on_commit,
  commit_rest, import_buffer, on_destroy_window, on_set_cursor,
}
use crystalline_lattice.Transport.Dispatch.{Answers, Outcome, dispatch, handle, handshake, accepts}

-- The descriptors that effects close.
abbrev pub closed : List Effect → List ℕ
closed [] = []
closed (close fd ∷ es) = fd ∷ closed es
closed (send fd m ∷ es) = closed es
closed (wait_fence fd ∷ es) = closed es
closed (unmap base len ∷ es) = closed es
closed (epoll_del fd ∷ es) = closed es

abbrev pub count : ℕ → List ℕ → ℕ
count a [] = 0
count a (x ∷ xs) = (if x == a then 1 else 0) + count a xs

closed-append : (es fs : List Effect) → closed (es ++ fs) ≡ closed es ++ closed fs
closed-append [] fs = refl
closed-append (close fd ∷ es) fs = ap (◌∷◌ fd) (closed-append es fs)
closed-append (send fd m ∷ es) fs = closed-append es fs
closed-append (wait_fence fd ∷ es) fs = closed-append es fs
closed-append (unmap base len ∷ es) fs = closed-append es fs
closed-append (epoll_del fd ∷ es) fs = closed-append es fs

closed-close_fds : (fds : List ℕ) → closed (close_fds fds) ≡ fds
unfolding close_fds
closed-close_fds [] = refl
closed-close_fds (fd ∷ fds) = ap (◌∷◌ fd) (closed-close_fds fds)

-- What closes nothing, and then the descriptors.
quiet_then_close :
    (es : List Effect) (fds : List ℕ) → closed es ≡ [] → closed (es ++ close_fds fds) ≡ fds
quiet_then_close es fds e = closed-append es (close_fds fds) ∙ rw (e) (closed-close_fds fds)

closed-send_to : (c : Client) (m : ServerMessage) → closed (send_to c m) ≡ []
closed-send_to c m = ground arith

-- To do something that closes nothing, or to do nothing.
quiet_option {ℓ} :
    {A : Type ℓ} (o : Option A) (f : A → List Effect)
    → ((a : A) → closed (f a) ≡ [])
    → closed (elim o [ none ↦ [] | some a ↦ f a ]) ≡ []
quiet_option none f quiet = refl
quiet_option (some a) f quiet = quiet a

closed-send_owner :
    (t : Transport) (id : ℕ) (m : ℕ → ServerMessage) → closed (send_owner t id m) ≡ []
closed-send_owner t id m =
    quiet_option (find_by_server_id t id) (λ (c, wid). send_to c (m wid))
      (λ (c, wid). closed-send_to c (m wid))

closed-both : (es fs : List Effect) → closed es ≡ [] → closed fs ≡ [] → closed (es ++ fs) ≡ []
closed-both es fs e f = closed-append es fs ∙ rw (e) f

closed-notify_focus : (t : Transport) (id : ℕ) → closed (notify_focus t id).1 ≡ []
unfolding notify_focus
closed-notify_focus t id = elim (Bool-cases (id == t.focused_server_id)) [
  | inl same ↦ rw same
  | inr new ↦ rw new (
      closed-both (send_owner t t.focused_server_id (λ wid. focus wid 0))
        (send_owner t id (λ wid. focus wid 1))
        (closed-send_owner t t.focused_server_id (λ wid. focus wid 0))
        (closed-send_owner t id (λ wid. focus wid 1)))
]

closed-win_drop_buffer : (w : ClWin) (s : WindowStack) → closed (win_drop_buffer w s).2 ≡ []
unfolding win_drop_buffer
closed-win_drop_buffer w s = ground arith

closed-send_placed :
    (c : Client) (wid : ℕ) (o : Option Window.Window) → closed (send_placed c wid o) ≡ []
unfolding send_placed
closed-send_placed c wid none = refl
closed-send_placed c wid (some v) =
    closed-send_to c (configure wid v.x v.y (u32_of_int v.w) (u32_of_int v.h))

closed-place_created :
    (t : Transport) (i id : ℕ) (m : CreateWindow) → closed (place_created t i id m).1 ≡ []
unfolding place_created
closed-place_created t i id m =
    let placed =
      place (Window.update t.stack id set_app_decorated) id (role_from_wire m.role) t.sw t.sh in
    let sent = send_placed (client_at t i) m.wid (Window.by_id placed id) in
    let told = closed-send_placed (client_at t i) m.wid (Window.by_id placed id) in
    elim (Bool-cases (is_normal (role_from_wire m.role))) [
      | inl e ↦ rw e (
          closed-both sent (notify_focus (record t { stack = placed }) id).1 told
            (closed-notify_focus (record t { stack = placed }) id))
      | inr e ↦ rw e (closed-both sent [] told refl)
    ]

closed-take_created :
    (t : Transport) (i k : ℕ) (m : CreateWindow) (made : ℕ × WindowStack)
    → closed (take_created t i k m made).1 ≡ []
unfolding take_created
closed-take_created t i k m (id, stack) = elim (Bool-cases (id == 0)) [
  | inl e ↦ rw e
  | inr e ↦ rw e (
      closed-place_created
        (record t {
          stack = stack;
          clients = set t.clients i (
              set_win (client_at t i) k
                (record (win_at (client_at t i) k) { client_wid = m.wid; server_id = id }));
        })
        i id m)
]

closed-on_create_window :
    (t : Transport) (i : ℕ) (m : CreateWindow) → closed (on_create_window t i m).1 ≡ []
unfolding on_create_window
closed-on_create_window t i m = grind (arith, closed-take_created)

closed-on_destroy_window :
    (t : Transport) (i : ℕ) (m : DestroyWindow) → closed (on_destroy_window t i m).1 ≡ []
unfolding on_destroy_window
closed-on_destroy_window t i m = grind (arith, closed-win_drop_buffer)

closed-on_set_cursor :
    (t : Transport) (m : SetCursor) (fds : List ℕ) (pixels : Option (List ℕ))
    → closed (on_set_cursor t m fds pixels).1 ≡ fds
unfolding on_set_cursor
closed-on_set_cursor t m fds pixels = ground (arith, closed-close_fds fds)

closed-import_buffer :
    (t : Transport) (i : ℕ) (o : Option ℕ) (m : Commit) (fd : ℕ) (mapped : Option ℕ)
    → closed (import_buffer t i o m fd mapped).1 ≡ fd ∷ []
unfolding import_buffer
closed-import_buffer t i none m fd mapped = refl
closed-import_buffer t i (some k) m fd mapped =
    ground (arith, closed-win_drop_buffer (win_at (client_at t i) k) t.stack)

-- Of the descriptors of a COMMIT the first is closed, and with a fence announced the second.
abbrev pub fence_closed : Commit → List ℕ → List ℕ
fence_closed m [] = []
fence_closed m (buf ∷ []) = buf ∷ []
fence_closed m (buf ∷ fence ∷ rest) = if m.buffer.has_fence == 0 then buf ∷ [] else fence ∷ buf ∷ []

closed-on_commit :
    (t : Transport) (i : ℕ) (m : Commit) (fds : List ℕ) (mapped : Option ℕ)
    → closed (on_commit t i m fds mapped).1 ≡ fence_closed m fds
unfolding on_commit commit_rest
closed-on_commit t i m [] mapped = refl
closed-on_commit t i m (buf ∷ []) mapped =
    closed-import_buffer t i (win_find (client_at t i) m.wid) m buf mapped
closed-on_commit t i m (buf ∷ fence ∷ rest) mapped = elim (Bool-cases (m.buffer.has_fence == 0)) [
  | inl e ↦ rw e (closed-import_buffer t i (win_find (client_at t i) m.wid) m buf mapped)
  | inr e ↦
      rw e (ap (◌∷◌ fence) (closed-import_buffer t i (win_find (client_at t i) m.wid) m buf mapped))
]
