-- ===== src/Transport/Stack/Rounds.antt =====
-- Rounds of `transport_process` in src/transport.c, and the window stack under them.
use crystalline_lattice.Common.{
  ℕ, suc, ◌≡◌, true, not, ◌&&◌, ◌||◌, List, [], ◌∷◌, arith, ltb, leb, ◌==◌, length, Bool-cases,
  Option-cases, inl, inr,
}
use crystalline_lattice.Window.{WindowStack}
use crystalline_lattice.Protocol.{
  word, Hello, read_create_window, read_set_title, read_commit, read_destroy_window,
  read_set_geometry, read_set_cursor, read_hello,
}
use crystalline_lattice.Protocol.MsgType
use crystalline_lattice.Protocol.Size
use crystalline_lattice.Transport.{Transport, ClWin, Orphan, client_at, assign_token, set_client}
use crystalline_lattice.Transport.Session.{
  reap, orphan_destroy, expire_from, orphans_expire, client_reclaim, client_drop, keep_slot,
}
use crystalline_lattice.Transport.Dispatch.{
  Answers, Outcome, dispatch, handle, handshake, greet, accepts, need,
}
use crystalline_lattice.Transport.Room.{
  Fits, Fits-less, destroy-Fits, win_drop_buffer-Fits, on_create_window-Fits,
}
use crystalline_lattice.Transport.Stack.{
  on_set_title-Fits, on_set_geometry-Fits, on_destroy_window-Fits, on_set_cursor-Fits,
  on_commit-Fits,
}

client_reclaim-stack : (t : Transport) (i token : ℕ) → (client_reclaim t i token).0.stack ≡ t.stack
unfolding client_reclaim
client_reclaim-stack t i token = ground arith

greet-stack : (t : Transport) (i token : ℕ) → (greet t i token).stack ≡ t.stack
unfolding greet assign_token
greet-stack t i token =
    let reclaimed =
      client_reclaim-stack (set_client t i (record (client_at t i) { hello = true })) i token in
    ground arith

handshake-stack :
    (t : Transport) (i : ℕ) (h : Hello) (fds : List ℕ) → (handshake t i h fds).state.stack ≡ t.stack
unfolding handshake
handshake-stack t i h fds = elim (Bool-cases (accepts h)) [
  | inl e ↦ rw e (greet-stack t i h.reconnect_token)
  | inr e ↦ rw e
]

need-Fits :
    (room size : ℕ) (t : Transport) (b fds : List ℕ) (o : Outcome)
    → Fits room t.stack
    → Fits room o.state.stack
    → Fits room (need size t b fds o).state.stack
need-Fits room size t b fds o fits left = elim (Bool-cases (leb size (length b))) [
  | inl e ↦ rw e left
  | inr e ↦ rw e fits
]

handle-Fits :
    (room : ℕ) (t : Transport) (i type : ℕ) (b fds : List ℕ) (answers : Answers)
    → Fits (suc room) t.stack
    → Fits room (handle t i type b fds answers).state.stack
unfolding handle
handle-Fits room t i type b fds answers fits =
    let less = Fits-less room t.stack fits in
    elim (Bool-cases (type == MsgType.create_window)) [
      | inl e ↦ rw e (
          need-Fits room Size.create_window t b fds _ less
            (on_create_window-Fits room t i (read_create_window b) fits))
      | inr e1 ↦ elim (Bool-cases (type == MsgType.set_title)) [
        | inl e ↦
            rw (e1, e)
              (need-Fits room Size.set_title t b fds _ less
                (on_set_title-Fits room t less i (read_set_title b)))
        | inr e2 ↦ elim (Bool-cases (type == MsgType.commit)) [
          | inl e ↦
              rw (e1, e2, e)
                (need-Fits room Size.commit t b fds _ less
                  (on_commit-Fits room t less i (read_commit b) fds answers.buffer))
          | inr e3 ↦ elim (Bool-cases (type == MsgType.destroy_window)) [
            | inl e ↦
                rw (e1, e2, e3, e)
                  (need-Fits room Size.destroy_window t b fds _ less
                    (on_destroy_window-Fits room t less i (read_destroy_window b)))
            | inr e4 ↦ elim (Bool-cases (type == MsgType.set_geometry)) [
              | inl e ↦
                  rw (e1, e2, e3, e4, e)
                    (need-Fits room Size.set_geometry t b fds _ less
                      (on_set_geometry-Fits room t less i (read_set_geometry b)))
              | inr e5 ↦ elim (Bool-cases (type == MsgType.set_cursor)) [
                | inl e ↦
                    rw (e1, e2, e3, e4, e5, e)
                      (need-Fits room Size.set_cursor t b fds _ less (
                        rw (on_set_cursor-Fits room t less (read_set_cursor b) fds answers.pixels)
                          less))
                | inr e6 ↦ rw (e1, e2, e3, e4, e5, e6) less
              ]
            ]
          ]
        ]
      ]
    ]

pub dispatch-Fits :
    (room : ℕ) (t : Transport) (i : ℕ) (b fds : List ℕ) (answers : Answers)
    → Fits (suc room) t.stack
    → Fits room (dispatch t i b fds answers).state.stack
unfolding dispatch
dispatch-Fits room t i b fds answers fits =
    let less = Fits-less room t.stack fits in
    elim (Bool-cases (ltb (length b) 4)) [
      | inl e ↦ rw e less
      | inr e ↦ elim (Bool-cases (client_at t i).hello) [
        | inl f ↦ rw (e, f) (handle-Fits room t i (word 0 b) b fds answers fits)
        | inr f ↦
            elim (Bool-cases (not (word 0 b == MsgType.hello) || ltb (length b) Size.hello_v1)) [
              | inl g ↦ rw (e, f, g) less
              | inr g ↦ rw (e, f, g) (rw (handshake-stack t i (read_hello b) fds) less)
            ]
      ]
    ]

reap-Fits : (room : ℕ) (ws : List ClWin) (s : WindowStack) → Fits room s → Fits room (reap ws s).0
unfolding reap
reap-Fits room [] s fits = fits
reap-Fits room (w ∷ ws) s fits = elim (Bool-cases (w.client_wid == 0)) [
  | inl e ↦ rw e (reap-Fits room ws s fits)
  | inr e ↦
      rw e
        (reap-Fits room ws _ (destroy-Fits room _ (win_drop_buffer-Fits room w s fits) w.server_id))
]

pub client_drop-Fits :
    (room : ℕ) (t : Transport) (i now : ℕ)
    → Fits room t.stack
    → Fits room (client_drop t i now).0.stack
unfolding client_drop
client_drop-Fits room t i now fits = elim (Option-cases (keep_slot t (client_at t i))) [
  | inl e ↦ rw (e, client_drop) (reap-Fits room (client_at t i).wins t.stack fits)
  | inr (k, e) ↦ rw (e, client_drop) fits
]

expire_from-Fits :
    (room now : ℕ) (os : List Orphan) (s : WindowStack)
    → Fits room s
    → Fits room (expire_from now os s).1
unfolding expire_from orphan_destroy
expire_from-Fits room now [] s fits = fits
expire_from-Fits room now (o ∷ os) s fits =
    elim (Bool-cases (not (o.token == 0) && leb o.deadline_ms now)) [
      | inl e ↦ rw e (expire_from-Fits room now os _ (reap-Fits room o.wins s fits))
      | inr e ↦ rw e (expire_from-Fits room now os s fits)
    ]

pub orphans_expire-Fits :
    (room : ℕ) (t : Transport) (now : ℕ)
    → Fits room t.stack
    → Fits room (orphans_expire t now).0.stack
unfolding orphans_expire
orphans_expire-Fits room t now fits = expire_from-Fits room now t.orphans t.stack fits
