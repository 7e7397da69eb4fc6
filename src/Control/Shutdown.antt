-- ===== src/Control/Shutdown.antt =====
-- What the control socket of src/control.c and src/server.c closes, from its start to its end.
use crystalline_lattice.Common.{
  ℕ, ◌≡◌, refl, ap, ◌∙◌, Bool, true, false, Option, none, some, List, [], ◌∷◌, ◌++◌, map, is_some,
  ◌&&◌, if◌then◌else◌, ℤ,
}
use crystalline_lattice.Control.{
  DisplayMode, Connection, ControlEffect, send_outputs, send_result, close, control_process,
}
use crystalline_lattice.Control.Laws.{closes, cfds, closes-control_process}
use crystalline_lattice.Control.Endpoint.{
  Call, unlink, bind, listen, shut, perform, control_create, control_listen, listen_on,
  glctl_default_socket_path, path_size, unlink_path, control_destroy, open_control, serve_rounds,
  close_control,
}

-- The descriptors that calls close.
abbrev pub shuts : List Call → List ℕ
shuts [] = []
shuts (shut fd ∷ cs) = fd ∷ shuts cs
shuts (perform e ∷ cs) = closes (e ∷ []) ++ shuts cs
shuts (_ ∷ cs) = shuts cs

abbrev pub given_socket : Option ℕ → List ℕ
given_socket none = []
given_socket (some fd) = fd ∷ []

abbrev pub accepted : List (List Connection) → List ℕ
accepted [] = []
accepted (cs ∷ rounds) = cfds cs ++ accepted rounds

shuts-append : (cs ds : List Call) → shuts (cs ++ ds) ≡ shuts cs ++ shuts ds
shuts-append [] ds = refl
shuts-append (shut fd ∷ cs) ds = ap (◌∷◌ fd) (shuts-append cs ds)
shuts-append (perform (send_outputs cfd modes) ∷ cs) ds = shuts-append cs ds
shuts-append (perform (send_result cfd ok) ∷ cs) ds = shuts-append cs ds
shuts-append (perform (close cfd) ∷ cs) ds = ap (◌∷◌ cfd) (shuts-append cs ds)
shuts-append (unlink path ∷ cs) ds = shuts-append cs ds
shuts-append (bind fd path ∷ cs) ds = shuts-append cs ds
shuts-append (listen fd ∷ cs) ds = shuts-append cs ds

shuts-unlink_path : (path : List ℕ) → shuts (unlink_path path) ≡ []
shuts-unlink_path [] = refl
shuts-unlink_path (b ∷ bs) = refl

shuts-perform : (es : List ControlEffect) → shuts (map (λ e. perform e) es) ≡ closes es
shuts-perform [] = refl
shuts-perform (send_outputs cfd modes ∷ es) = shuts-perform es
shuts-perform (send_result cfd ok ∷ es) = shuts-perform es
shuts-perform (close cfd ∷ es) = ap (◌∷◌ cfd) (shuts-perform es)

module _ {S : Type 0} (apply : S → ℤ → ℤ → ℤ → Bool × S)
    (modes : S → Option (DisplayMode × List DisplayMode)) where
  shuts-serve_rounds :
      (s : S) (rounds : List (List Connection))
      → shuts (serve_rounds apply modes s rounds).1 ≡ accepted rounds
  unfolding serve_rounds
  shuts-serve_rounds s [] = refl
  shuts-serve_rounds s (cs ∷ rounds) =
      shuts-append (map (λ e. perform e) (control_process apply modes s cs).1) _
      ∙ rw
          (
            shuts-perform (control_process apply modes s cs).1,
            closes-control_process apply modes s cs,
            shuts-serve_rounds (control_process apply modes s cs).0 rounds,
          )
          refl

  -- The panels' socket, from `control_create` to the end of the server, whatever the allocator and
  -- the kernel answer, whatever the panels send in however many rounds, and however a change of mode
  -- comes out: every connection that is accepted is closed exactly once, round by round in the order
  -- of the connections, and the listening socket, where the kernel gave one, is closed exactly once,
  -- after them. No other descriptor is closed, and no connection is accepted where the socket could
  -- not be made, bound and listened on.
  pub shuts-control :
      (created : Bool) (given runtime_dir : Option (List ℕ)) (socket : Option ℕ)
      (bound listening : Bool) (s : S) (rounds : List (List Connection))
      → let (ctl, opening) = open_control created given runtime_dir socket bound listening in
        shuts (opening ++ close_control apply modes ctl s rounds)
        ≡ (if created && is_some socket && bound && listening then accepted rounds else [])
          ++ (if created then given_socket socket else [])
  unfolding open_control control_listen listen_on close_control control_destroy control_create
  shuts-control false given runtime_dir none bound listening s rounds = refl
  shuts-control false given runtime_dir (some fd) bound listening s rounds = refl
  shuts-control true given runtime_dir none bound listening s rounds = refl
  shuts-control true given runtime_dir (some fd) false listening s rounds = refl
  shuts-control true given runtime_dir (some fd) true false s rounds = refl
  shuts-control true given runtime_dir (some fd) true true s rounds =
      let path = glctl_default_socket_path given runtime_dir path_size in
      shuts-append (serve_rounds apply modes s rounds).1 (shut fd ∷ unlink_path path)
      ∙ rw (shuts-serve_rounds s rounds, shuts-unlink_path path) refl
