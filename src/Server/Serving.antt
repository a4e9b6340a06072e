-- ===== src/Server/Serving.antt =====
-- The sessions in the table are served: each that is active is ready for a conversation.
use multi_client_media_strea.Base.{
  ℕ, ◌<◌, true, List, [], ◌∷◌, ◌++◌, ◌≡◌, refl, arith, some, inl, inr, Bool-cases, All, All-append,
  ℤ, pos, negsuc, All-suffix,
}
use multi_client_media_strea.ClientSession
use multi_client_media_strea.ClientSession.{ClientSession, make_session}
use multi_client_media_strea.ClientSession.Conversation.{Conversation, run-Conversation}
use multi_client_media_strea.FileManager.{FileManager}
use multi_client_media_strea.Os.{Os, Address}
use multi_client_media_strea.Os.Contract.{Wire, Reading}
use multi_client_media_strea.Server.Each.{cleanup-All, finish-All}
use multi_client_media_strea.Server.Loop.{EmptyHanded, stop_step-same}
use multi_client_media_strea.Server.{
  Server, SessionWorker, cleanup, cleanup_finished_sessions, close_listening, clear_table, admit,
}
use multi_client_media_strea.Server.Threads.{
  Phase, testing, waiting, left, holding, Stopping, resting, flagged, closed, Event, accepting,
  stopping, finishing, State, test_running, accept_client, enter, accept_step, stop_step,
  finish_step, step, run,
}
use multi_client_media_strea.Socket
use multi_client_media_strea.Socket.{Socket, is_valid}

record IsServable (worker : SessionWorker) : Type 0 where
  chunked : 0 < worker.session.chunk_size
  if_active : worker.session.is_active ≡ true → is_valid worker.session.socket ≡ true

-- A client that the accept thread holds has a socket.
abbrev HoldsValid : Phase → Type 0
HoldsValid (holding client_sock client) = is_valid client_sock ≡ true
HoldsValid _ = Unit {0}

EmptyHanded-HoldsValid : (phase : Phase) → EmptyHanded phase → HoldsValid phase
EmptyHanded-HoldsValid testing h = tt
EmptyHanded-HoldsValid waiting h = tt
EmptyHanded-HoldsValid (holding c a) h = absurd h
EmptyHanded-HoldsValid left h = tt

make_session-chunked :
    (id : ℕ) (s : Socket) (ip : List ℕ) (port chunk_size : ℕ)
    → 0 < (make_session id s ip port chunk_size).chunk_size
unfolding make_session
make_session-chunked id s ip port chunk_size = ground arith

module _ (os : Os) where
  record IsServing (fm : FileManager) (st : State os) : Type 0 where
    managed : st.server.file_manager ≡ fm
    each : All IsServable st.server.workers
    held : HoldsValid st.phase

  admit-IsServable :
      (server : Server) (client_sock : Socket) (client : Address) (w : os.World)
      → is_valid client_sock ≡ true
      → All IsServable server.workers
      → All IsServable (admit os server client_sock client w).0.workers
  unfolding admit cleanup_finished_sessions
  admit-IsServable server client_sock client w v h =
      All-append IsServable (cleanup server.workers).0 _ (cleanup-All IsServable server.workers h) (
        record {
          chunked =
              make_session-chunked server.next_session_id client_sock client.ip client.port
                server.config.chunk_size;
          if_active = λ on. unfold make_session in v;
        },
        tt,
      )

  module _ (fm : FileManager) where
    accept_step-IsServing :
        (phase : Phase) (st : State os)
        → st.phase ≡ phase
        → IsServing fm st
        → IsServing fm (accept_step os phase st)
    unfolding accept_step test_running accept_client enter
    accept_step-IsServing testing st e h = elim (Bool-cases st.server.is_running) [
      | inl on ↦ rw on (record { managed = h.managed; each = h.each; held = tt })
      | inr off ↦ rw off (record { managed = h.managed; each = h.each; held = tt })
    ]
    accept_step-IsServing waiting st e h =
        let accepted =
          Socket.accept os st.server.server_socket (record { ip = []; port = 0 }) st.world in
        elim (Bool-cases (is_valid accepted.0.0)) [
          | inl valid ↦ rw valid (record { managed = h.managed; each = h.each; held = valid })
          | inr failed ↦ elim (Bool-cases st.server.is_running) [
            | inl on ↦ rw (failed, on) (record { managed = h.managed; each = h.each; held = tt })
            | inr off ↦ rw (failed, off) (record { managed = h.managed; each = h.each; held = tt })
          ]
        ]
    accept_step-IsServing (holding c a) st e h = record {
      managed = h.managed;
      each = admit-IsServable st.server c a st.world (rw e at h.held) h.each;
      held = tt;
    }
    accept_step-IsServing left st e h = h

    stop_step-IsServing :
        (k : Stopping) (st : State os) → IsServing fm st → IsServing fm (stop_step os k st)
    unfolding stop_step close_listening clear_table
    stop_step-IsServing resting st h = elim (Bool-cases st.server.is_running) [
      | inl on ↦ rw on (record { managed = h.managed; each = h.each; held = h.held })
      | inr off ↦ rw (stop_step-same os st off) h
    ]
    stop_step-IsServing flagged st h = record { managed = h.managed; each = h.each; held = h.held }
    stop_step-IsServing closed st h = record { managed = h.managed; each = tt; held = h.held }

    step-IsServing : (e : Event) (st : State os) → IsServing fm st → IsServing fm (step os e st)
    unfolding step finish_step
    step-IsServing accepting st h = accept_step-IsServing st.phase st refl h
    step-IsServing stopping st h = stop_step-IsServing st.stopper st h
    step-IsServing (finishing id) st h = record {
      managed = h.managed;
      each =
          finish-All IsServable os id st.server.workers st.world
            (λ worker socket' p. record { chunked = p.chunked; if_active = λ on. cc }) h.each;
      held = h.held;
    }

    run-IsServing :
        (es : List Event) (st : State os) → IsServing fm st → IsServing fm (run os es st)
    unfolding run
    run-IsServing [] st h = h
    run-IsServing (e ∷ es) st h = run-IsServing es (step os e st) (step-IsServing e st h)

-- The descriptor of a socket that is valid.
valid_fd : (s : Socket) → is_valid s ≡ true → (fd : ℕ) × (s ≡ record { fd = pos fd })
valid_fd s v = let (fd, e) = go s.fd v in (fd, λ i. record { fd = e i })
  where
    go : (z : ℤ) → is_valid (record { fd = z }) ≡ true → (fd : ℕ) × (z ≡ pos fd)
    go (pos fd) v = (fd, refl)
    go (negsuc n) v = absurd (cc v)

-- A worker in the table, behind any steps of all threads from an empty table.
module _ (os : Os) (es : List Event) (st : State os) (front rest : List SessionWorker)
    (worker : SessionWorker) (empty : st.server.workers ≡ []) (hands : EmptyHanded st.phase)
    (there : (run os es st).server.workers ≡ front ++ worker ∷ rest) where
  serving : IsServing os st.server.file_manager (run os es st)
  serving =
      run-IsServing os st.server.file_manager es st (record {
        managed = refl;
        each = rw empty tt;
        held = EmptyHanded-HoldsValid st.phase hands;
      })

  pub run-file_manager : (run os es st).server.file_manager ≡ st.server.file_manager
  run-file_manager = serving.managed

  servable : IsServable worker
  servable = (All-suffix IsServable front (worker ∷ rest) (rw there at serving.each)).0

  pub run-connected :
      worker.session.is_active ≡ true → (fd : ℕ) × (worker.session.socket ≡ record { fd = pos fd })
  run-connected on = valid_fd worker.session.socket (servable.if_active on)

  pub run-chunked : 0 < worker.session.chunk_size
  run-chunked = servable.chunked

-- Where the system keeps the contracts `Wire` and `Reading`: take any steps of all threads from a state
-- in which the table is empty and the accept thread has no client in hand. Then a session in the table that is active has a socket with a descriptor, and if its
-- `run` returns, from whatever world, it has been a conversation on that descriptor.
pub run-Serving :
    (os : Os) (wire : Wire os) (reading : Reading os) (es : List Event) (st : State os)
    (front rest : List SessionWorker) (worker : SessionWorker) (rounds fuel : ℕ) (fm : FileManager)
    (t : ClientSession) (w v : os.World)
    → st.server.workers ≡ []
    → EmptyHanded st.phase
    → (run os es st).server.workers ≡ front ++ worker ∷ rest
    → worker.session.is_active ≡ true
    → ClientSession.run os rounds fuel fm worker.session w ≡ some (t, v)
    → (fd : ℕ) × (worker.session.socket ≡ record { fd = pos fd })
      × Conversation os wire reading fd (record worker.session { is_active = true }) fm w v
run-Serving os wire reading es st front rest worker rounds fuel fm t w v empty hands there on ran =
    let (fd, connected) = run-connected os es st front rest worker empty hands there on in
    (
      fd,
      connected,
      run-Conversation os wire reading rounds fuel fd fm worker.session t w v connected
          (run-chunked os es st front rest worker empty hands there) ran,
    )
