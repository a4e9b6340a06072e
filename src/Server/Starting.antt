-- ===== src/Server/Starting.antt =====
-- How `start` ends, on every branch.
use multi_client_media_strea.Base.{
  ℕ, Bool, true, false, ◌≡◌, refl, sym, ap, ◌∙◌, Bytes, ℤ, pos, negsuc, inl, inr, ◌⊎◌, Bool-cases,
  arith, Option-cases,
}
use multi_client_media_strea.FileManager
use multi_client_media_strea.FileManager.{FileManager}
use multi_client_media_strea.Os.{
  Os, Reply, Errno, done, failed, Signal, sigint, sigterm, sigpipe, sig_ign, handle_signal,
  reuse_address,
}
use multi_client_media_strea.Os.Contract.{Signals}
use multi_client_media_strea.Server.Binding
use multi_client_media_strea.Server.Binding.{Listens, Refused, not_bound, bind-cases, listen-cases}
use multi_client_media_strea.Server.{
  ServerConfig, Server, install_signal_handlers, listen_on, use_socket, start,
}
use multi_client_media_strea.Socket
use multi_client_media_strea.Socket.{Socket, invalid}

module _ (os : Os) (signals : Signals os) where
  open signals use {action}

  -- A broken connection does not end the process, and the two requests to end reach the handler.
  pub record Handled (w : os.World) : Type 0 where
    pub on_sigpipe : action sigpipe w ≡ sig_ign
    pub on_sigint : action sigint w ≡ handle_signal
    pub on_sigterm : action sigterm w ≡ handle_signal

  -- Why there is no listening socket: `socket` has failed, in the world where the handlers are
  -- installed, or `bind` or `listen` has failed on the descriptor that it gave.
  pub data NoListener (config : ServerConfig) (w₁ w' : os.World) : Type 0 where
    no_socket :
        {e : Errno}
        → (os.socket (install_signal_handlers os w₁)).0 ≡ failed e
        → NoListener config w₁ w'
    not_listening :
        {fd : ℕ}
        → (os.socket (install_signal_handlers os w₁)).0 ≡ done fd
        → Refused os config fd w'
        → NoListener config w₁ w'

  -- The ends of `start`, from a server and a world to the flag, a server and a world. In the first
  -- the directory is not ready; in the second there is no socket, or it cannot be bound or listened
  -- on, but `running_instance_` points to the server all the same; in the third the socket is bound
  -- to the address of the configuration and listened on.
  pub data Started (server : Server) (w : os.World) : Bool × Server → os.World → Type 0 where
    unready :
        {fm : FileManager} {w' : os.World}
        → FileManager.init os server.file_manager w ≡ ((false, fm), w')
        → Started server w (false, record server { file_manager = fm }) w'
    refused :
        {fm : FileManager} {w₁ w' : os.World}
        → FileManager.init os server.file_manager w ≡ ((true, fm), w₁)
        → NoListener server.config w₁ w'
        → Handled w'
        → Started server w
            (false, record server { file_manager = fm; server_socket = invalid; registered = true })
            w'
    listening :
        {fm : FileManager} {w₁ w' : os.World} {fd : ℕ}
        → FileManager.init os server.file_manager w ≡ ((true, fm), w₁)
        → (os.socket (install_signal_handlers os w₁)).0 ≡ done fd
        → Listens os server.config fd w'
        → Handled w'
        → Started server w
            (
              true,
              record server {
                file_manager = fm;
                server_socket = record { fd = pos fd };
                registered = true;
                is_running = true;
              },
            )
            w'

  -- A call that changes no action.
  abbrev Leaves : os.World → os.World → Type 0
  Leaves w w' = (t : Signal) → action t w' ≡ action t w

  Handled-Leaves : (w w' : os.World) → Leaves w w' → Handled w → Handled w'
  Handled-Leaves w w' same h = record {
    on_sigpipe = same sigpipe ∙ h.on_sigpipe;
    on_sigint = same sigint ∙ h.on_sigint;
    on_sigterm = same sigterm ∙ h.on_sigterm;
  }

  install_signal_handlers-Handled : (w : os.World) → Handled (install_signal_handlers os w)
  unfolding install_signal_handlers
  install_signal_handlers-Handled w =
      let w₁ = os.sigaction sigpipe sig_ign w in
      let w₂ = os.sigaction sigint handle_signal w₁ in
      record {
        on_sigpipe =
            signals.sigaction_others sigterm sigpipe handle_signal w₂ (λ q. cc)
            ∙ signals.sigaction_others sigint sigpipe handle_signal w₁ (λ q. cc)
            ∙ signals.sigaction_law sigpipe sig_ign w;
        on_sigint =
            signals.sigaction_others sigterm sigint handle_signal w₂ (λ q. cc)
            ∙ signals.sigaction_law sigint handle_signal w₁;
        on_sigterm = signals.sigaction_law sigterm handle_signal w₂;
      }

  module _ (fd : ℕ) where
    abbrev socket : Socket
    socket = record { fd = pos fd }

    set_reuse_address-Leaves :
        (b : Bool) (w : os.World) → Leaves w (Socket.set_reuse_address os socket b w).1
    unfolding Socket.set_reuse_address
    set_reuse_address-Leaves b w t = ground (arith, signals.by_setsockopt t fd (reuse_address b) w)

    bind-Leaves :
        (host : Bytes) (port : ℕ) (w : os.World) → Leaves w (Socket.bind os socket host port w).1
    unfolding Socket.bind
    bind-Leaves host port w t = elim (Option-cases (os.inet_pton host)) [
      | inl unknown ↦ ground (arith, unknown, signals.by_bind t fd 0 port w)
      | inr (ip, found) ↦
          ground (arith, found, signals.by_bind t fd 0 port w, signals.by_bind t fd ip port w)
    ]

    listen-Leaves : (backlog : ℤ) (w : os.World) → Leaves w (Socket.listen os socket backlog w).1
    unfolding Socket.listen
    listen-Leaves backlog w t = ground (arith, signals.by_listen t fd backlog w)

    -- The server with its listening socket, once the handlers are installed.
    module _ (server : Server) (fm : FileManager) (w w₁ w₂ : os.World)
        (ready : FileManager.init os server.file_manager w ≡ ((true, fm), w₁))
        (handled : Handled w₂)
        (made : (os.socket (install_signal_handlers os w₁)).0 ≡ done fd) where
      abbrev opened : Server
      opened = record server { file_manager = fm; server_socket = socket; registered = true }

      abbrev Ends : (Bool × Server) × os.World → Type 0
      Ends r = Started server w r.0 r.1

      listen_on-Started : Ends (listen_on os opened w₂)
      unfolding listen_on Socket.close
      listen_on-Started =
          let u₁ = (Socket.set_reuse_address os socket true w₂).1 in
          let h₁ = Handled-Leaves _ _ (set_reuse_address-Leaves true w₂) handled in
          let bound = Socket.bind os socket server.config.host server.config.port u₁ in
          let h₂ = Handled-Leaves _ _ (bind-Leaves server.config.host server.config.port u₁) h₁ in
          let listens = Socket.listen os socket server.config.backlog bound.1 in
          let h₃ = Handled-Leaves _ _ (listen-Leaves server.config.backlog bound.1) h₂ in
          elim (bind-cases os fd server.config.host server.config.port u₁) [
            | inl (unbound, why) ↦
                rw (unbound, listen_on)
                  (refused ready (not_listening made (not_bound why refl))
                    (Handled-Leaves _ _ (λ t. signals.by_close t fd bound.1) h₂))
            | inr (b, where_to) ↦ elim (listen-cases os fd server.config.backlog bound.1) [
              | inl (deaf, (e, why)) ↦
                  rw (b, deaf, listen_on)
                    (refused ready (not_listening made (Binding.not_listening where_to why refl))
                      (Handled-Leaves _ _ (λ t. signals.by_close t fd listens.1) h₃))
              | inr (l, heard) ↦
                  rw (b, l, listen_on)
                    (listening ready made
                      (record {
                        at_bind = u₁;
                        between = bound.1;
                        bound = where_to;
                        listens = heard;
                      })
                      h₃)
            ]
          ]

  close-Leaves : (z : ℤ) (w : os.World) → Leaves w (Socket.close os (record { fd = z }) w).1
  unfolding Socket.close
  close-Leaves (pos fd) w t = signals.by_close t fd w
  close-Leaves (negsuc _) w t = refl

  create_tcp-Leaves : (w : os.World) → Leaves w (Socket.create_tcp os w).1
  unfolding Socket.create_tcp
  create_tcp-Leaves w t = ground (arith, signals.by_socket t w)

  closing-Leaves : (s : Socket) (w : os.World) → Leaves w (Socket.close os s w).1
  closing-Leaves s w = close-Leaves s.fd w

  -- What `create_tcp` makes of the answer of `socket`.
  abbrev Created : Reply ℕ → Socket → Type 0
  Created reply created =
      ((e : Errno) × ((reply ≡ failed e) × (created ≡ invalid)))
      ⊎ ((fd : ℕ) × ((reply ≡ done fd) × (created ≡ record { fd = pos fd })))

  create_tcp-cases : (w : os.World) → Created (os.socket w).0 (Socket.create_tcp os w).0
  unfolding Socket.create_tcp
  create_tcp-cases w = go (os.socket w)
    where
      go :
          (r : Reply ℕ × os.World)
          → Created r.0
              (elim r.0 as (λ _. Socket × os.World) [
                | failed _ ↦ (invalid, r.1)
                | done fd ↦ (record { fd = pos fd }, r.1)
              ]).0
      go (failed e, v) = inl (e, (refl, refl))
      go (done fd, v) = inr (fd, (refl, refl))

  module _ (server : Server) (fm : FileManager) (w w₁ : os.World)
      (ready : FileManager.init os server.file_manager w ≡ ((true, fm), w₁)) where
    abbrev registered : Server
    registered = record server { file_manager = fm; registered = true }

    abbrev Ended : (Bool × Server) × os.World → Type 0
    Ended r = Started server w r.0 r.1

    abbrev answer : Reply ℕ
    answer = (os.socket (install_signal_handlers os w₁)).0

    use_socket_without :
        (e : Errno) (w₂ : os.World)
        → answer ≡ failed e
        → Handled w₂
        → Ended (use_socket os registered invalid w₂)
    unfolding use_socket Socket.move_assign
    use_socket_without e w₂ none_made h =
        refused ready (no_socket none_made)
          (Handled-Leaves _ _ (closing-Leaves server.server_socket w₂) h)

    use_socket_with :
        (fd : ℕ) (w₂ : os.World)
        → answer ≡ done fd
        → Handled w₂
        → Ended (use_socket os registered (record { fd = pos fd }) w₂)
    unfolding use_socket Socket.move_assign
    use_socket_with fd w₂ made h =
        listen_on-Started fd server fm w w₁ (Socket.close os server.server_socket w₂).1 ready
          (Handled-Leaves _ _ (closing-Leaves server.server_socket w₂) h) made

    use_socket-Started :
        (created : Socket) (w₂ : os.World)
        → Handled w₂
        → Created answer created
        → Ended (use_socket os registered created w₂)
    use_socket-Started created w₂ h (inl (e, (failing, c))) =
        rw c (use_socket_without e w₂ failing h)
    use_socket-Started created w₂ h (inr (fd, (made, c))) = rw c (use_socket_with fd w₂ made h)

  start-outcome :
      (server : Server) (w : os.World)
      → Started server w (start os server w).0 (start os server w).1
  unfolding start
  start-outcome server w =
      let r = FileManager.init os server.file_manager w in
      let h = install_signal_handlers-Handled r.1 in
      let u = install_signal_handlers os r.1 in
      elim (Bool-cases r.0.0) [
        | inr absent ↦ rw (absent, start) (unready (ap (λ b. ((b, r.0.1), r.1)) absent))
        | inl there ↦
            rw (there, start)
              (use_socket-Started server r.0.1 w r.1 (ap (λ b. ((b, r.0.1), r.1)) there)
                (Socket.create_tcp os u).0 (Socket.create_tcp os u).1
                (Handled-Leaves _ _ (create_tcp-Leaves u) h) (create_tcp-cases u))
      ]

-- Where the system keeps the contract `Signals`, `start` ends in one of three ways. If the media
-- directory is not ready it returns false and only the file manager has changed. If `socket` fails, or
-- the host stands for no address, or `bind` or `listen` fails, it returns false with the listening
-- socket closed, its descriptor too if there was one, not running, but `running_instance_` points to
-- the server. Otherwise `bind`, to the address and port of the configuration, and then `listen`, with
-- its backlog, have succeeded on the descriptor that `socket` gave, and it returns true, running, with
-- that descriptor. In the last two the actions of SIGPIPE, SIGINT and SIGTERM are installed. Nothing
-- else of the server changes.
pub start-Started :
    (os : Os) (signals : Signals os) (server server' : Server) (ok : Bool) (w w' : os.World)
    → start os server w ≡ ((ok, server'), w')
    → Started os signals server w (ok, server') w'
start-Started os signals server server' ok w w' e =
    rw
      (
        ap (λ (r : (Bool × Server) × os.World). r.0) (sym e),
        ap (λ (r : (Bool × Server) × os.World). r.1) (sym e),
      )
      (start-outcome os signals server w)
