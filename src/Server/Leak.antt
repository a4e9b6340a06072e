-- ===== src/Server/Leak.antt =====
-- `stop` as steps against `stop` as a call, and the client that `stop` misses.
use multi_client_media_strea.Base.{ℕ, true, false, [], ◌∷◌, ◌≡◌, refl, ap, ◌∙◌, arith}
use multi_client_media_strea.ClientSession.{make_session}
use multi_client_media_strea.Os.{Os, Address}
use multi_client_media_strea.Server.Loop.{stop_step-same, test_running-left}
use multi_client_media_strea.Server.{
  Server, SessionWorker, cleanup, cleanup_finished_sessions, stop, shut_down, close_listening,
  clear_table, admit,
}
use multi_client_media_strea.Server.Threads.{
  left, holding, resting, accepting, stopping, State, enter, accept_step, stop_step, step, run,
}
use multi_client_media_strea.Server.Table.{stop-Stopped}
use multi_client_media_strea.Socket.{Socket}

module _ (os : Os) where
  -- The state behind a call of `stop`, with the other threads standing still.
  abbrev pub stopped : State os → State os
  stopped st =
      let ((server', gone), w') = stop os st.server st.world in
      record st { server = server'; stopper = resting; world = w' }

  stop_steps :
      (st : State os)
      → st.server.is_running ≡ true
      → st.stopper ≡ resting
      → run os (stopping ∷ stopping ∷ stopping ∷ []) st ≡ stopped st
  unfolding run step stop_step stop shut_down
  stop_steps st r e = rw (e, r) refl

  -- One worker is in the table of a server that does not run, for a session that is active and with
  -- a thread that nobody has joined; `stop` does nothing in this state.
  pub record Leaked (id : ℕ) (client_sock : Socket) (st : State os) : Type 0 where
    pub worker : SessionWorker
    pub alone : st.server.workers ≡ worker ∷ []
    pub its_id : worker.session.session_id ≡ id
    pub its_socket : worker.session.socket ≡ client_sock
    pub active : worker.session.is_active ≡ true
    pub unjoined : worker.joinable ≡ true
    pub not_running : st.server.is_running ≡ false
    pub loop_over : st.phase ≡ left
    pub stop_idle : step os stopping st ≡ st

  abbrev new_worker : Server → Socket → Address → SessionWorker
  new_worker server client_sock client = record {
    session =
        make_session server.next_session_id client_sock client.ip client.port
          server.config.chunk_size;
    joinable = true;
  }

  -- What `enter` does to a server with an empty table.
  enter-workers :
      (st : State os) (client_sock : Socket) (client : Address)
      → st.server.workers ≡ []
      → (enter os client_sock client st).server.workers
        ≡ new_worker st.server client_sock client ∷ []
  unfolding enter admit cleanup_finished_sessions cleanup
  enter-workers st client_sock client h = rw h

  enter-running :
      (st : State os) (client_sock : Socket) (client : Address)
      → (enter os client_sock client st).server.is_running ≡ st.server.is_running
  unfolding enter admit cleanup_finished_sessions
  enter-running st client_sock client = refl

  enter-stopper :
      (st : State os) (client_sock : Socket) (client : Address)
      → (enter os client_sock client st).stopper ≡ st.stopper
  unfolding enter
  enter-stopper st client_sock client = refl

  entered : (st : State os) (client_sock : Socket) (client : Address) → State os
  entered st client_sock client = record (enter os client_sock client st) { phase = left }

  idle_step :
      (st : State os)
      → st.server.is_running ≡ false
      → st.stopper ≡ resting
      → step os stopping st ≡ st
  unfolding step
  idle_step st r e = ap (λ k. stop_step os k st) e ∙ stop_step-same os st r

  entered-Leaked :
      (st : State os) (client_sock : Socket) (client : Address)
      → st.server.workers ≡ []
      → st.server.is_running ≡ false
      → st.stopper ≡ resting
      → Leaked st.server.next_session_id client_sock (entered st client_sock client)
  unfolding entered make_session
  entered-Leaked st client_sock client empty over rest =
      let over' = enter-running st client_sock client ∙ over in
      record {
        worker = new_worker st.server client_sock client;
        alone = enter-workers st client_sock client empty;
        its_id = refl;
        its_socket = refl;
        active = refl;
        unjoined = refl;
        not_running = over';
        loop_over = refl;
        stop_idle =
            idle_step (record (enter os client_sock client st) { phase = left }) over'
              (enter-stopper st client_sock client ∙ rest);
      }

  -- Two steps of an accept thread that holds a client, when the server is not running.
  enter_then_test :
      (st : State os) (client_sock : Socket) (client : Address)
      → st.server.is_running ≡ false
      → st.phase ≡ holding client_sock client
      → run os (accepting ∷ accepting ∷ []) st ≡ entered st client_sock client
  unfolding run step enter accept_step entered
  enter_then_test st client_sock client over h = rw h (
      test_running-left os (enter os client_sock client st)
        (enter-running st client_sock client ∙ over))

  stopped-next_session_id :
      (st : State os) → (stopped st).server.next_session_id ≡ st.server.next_session_id
  unfolding stop shut_down close_listening clear_table
  stopped-next_session_id st = ground arith

  -- If a thread makes its three steps in `stop` on a running server, with no other in `stop`, while
  -- the accept thread holds a client, then two steps of the accept thread later it has left its
  -- loop, and the stopped server's table holds just that client's session, active, with a thread
  -- that nobody has joined. A further `stop` does not touch it.
  pub stop_leaks :
      (st : State os) (client_sock : Socket) (client : Address)
      → st.server.is_running ≡ true
      → st.stopper ≡ resting
      → st.phase ≡ holding client_sock client
      → Leaked st.server.next_session_id client_sock
          (run os (stopping ∷ stopping ∷ stopping ∷ accepting ∷ accepting ∷ []) st)
  stop_leaks st client_sock client r e h =
      let s = stop-Stopped os st.server st.world r in
      let three : run os (stopping ∷ stopping ∷ stopping ∷ accepting ∷ accepting ∷ []) st
          ≡ run os (accepting ∷ accepting ∷ []) (stopped st) =
        unfold run in ap (run os (accepting ∷ accepting ∷ [])) (unfold run in stop_steps st r e) in
      rw (three, enter_then_test (stopped st) client_sock client s.not_running h)
        (rw (stopped-next_session_id st) at
          (entered-Leaked (stopped st) client_sock client s.empty s.not_running refl))
