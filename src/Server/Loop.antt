-- ===== src/Server/Loop.antt =====
-- The accept loop, `stop` and the sessions in their threads, with their steps in any order.
use multi_client_media_strea.Base.{
  ℕ, false, List, [], ◌∷◌, ◌≡◌, refl, ap, ◌∙◌, arith, inl, inr, Bool-cases,
}
use multi_client_media_strea.Os.{Os, Address}
use multi_client_media_strea.Server.Table.{close_listening-closed}
use multi_client_media_strea.Server.{
  Server, cleanup_finished_sessions, close_listening, clear_table, admit,
}
use multi_client_media_strea.Server.Threads.{
  Phase, testing, waiting, left, holding, Stopping, resting, flagged, closed, Event, accepting,
  stopping, finishing, State, test_running, accept_client, enter, accept_step, stop_step, finish,
  finish_step, step, run,
}
use multi_client_media_strea.Socket
use multi_client_media_strea.Socket.{Socket, is_valid, invalid}

abbrev pub EmptyHanded : Phase → Type 0
EmptyHanded (holding client_sock client) = ⊥
EmptyHanded _ = Unit {0}

-- What the thread in `stop` has done so far.
abbrev HasDone : Stopping → Server → Type 0
HasDone resting server = Unit {0}
HasDone flagged server = server.is_running ≡ false
HasDone closed server = (server.is_running ≡ false) × (is_valid server.server_socket ≡ false)

module _ (os : Os) where
  -- The server is down for good: nothing will enter its table.
  pub record IsDown (st : State os) : Type 0 where
    pub not_running : st.server.is_running ≡ false
    pub closed : is_valid st.server.server_socket ≡ false
    pub empty : st.server.workers ≡ []
    pub empty_handed : EmptyHanded st.phase
    pub over : st.stopper ≡ resting

  accept-invalid :
      (s : Socket) (a : Address) (w : os.World)
      → is_valid s ≡ false
      → Socket.accept os s a w ≡ ((invalid, a), w)
  unfolding Socket.accept
  accept-invalid s a w h = ground arith

  pub test_running-left :
      (st : State os)
      → st.server.is_running ≡ false
      → test_running os st ≡ record st { phase = left }
  unfolding test_running
  test_running-left st h = ground arith

  accept_client-left :
      (st : State os)
      → st.server.is_running ≡ false
      → is_valid st.server.server_socket ≡ false
      → accept_client os st ≡ record st { phase = left }
  unfolding accept_client
  accept_client-left st h c =
      ground
        (arith, accept-invalid st.server.server_socket (record { ip = []; port = 0 }) st.world c)

  -- The accept thread of a server that is down leaves its loop at its next step.
  accept_step-left :
      (phase : Phase) (st : State os)
      → st.phase ≡ phase
      → IsDown st
      → EmptyHanded phase
      → accept_step os phase st ≡ record st { phase = left }
  unfolding accept_step
  accept_step-left testing st e d h = test_running-left st d.not_running
  accept_step-left waiting st e d h = accept_client-left st d.not_running d.closed
  accept_step-left (holding c a) st e d h = absurd h
  accept_step-left left st e d h = ap (λ p. record st { phase = p }) e

  left-IsDown : (st : State os) → IsDown st → IsDown (record st { phase = left })
  left-IsDown st d = record {
    not_running = d.not_running;
    closed = d.closed;
    empty = d.empty;
    empty_handed = tt;
    over = d.over;
  }

  pub stop_step-same : (st : State os) → st.server.is_running ≡ false → stop_step os resting st ≡ st
  unfolding stop_step
  stop_step-same st h = ground arith

  finish_step-empty : (id : ℕ) (st : State os) → st.server.workers ≡ [] → finish_step os id st ≡ st
  unfolding finish_step finish
  finish_step-empty id st h = ground arith

  stop_step-IsDown :
      (k : Stopping) (st : State os) → k ≡ resting → IsDown st → IsDown (stop_step os k st)
  stop_step-IsDown k st e d = rw (e, stop_step-same st d.not_running) d

  step-IsDown : (e : Event) (st : State os) → IsDown st → IsDown (step os e st)
  unfolding step
  step-IsDown accepting st d =
      rw (accept_step-left st.phase st refl d d.empty_handed) (left-IsDown st d)
  step-IsDown stopping st d = stop_step-IsDown st.stopper st d.over d
  step-IsDown (finishing id) st d = rw (finish_step-empty id st d.empty) d

  run-IsDown : (es : List Event) (st : State os) → IsDown st → IsDown (run os es st)
  unfolding run
  run-IsDown [] st d = d
  run-IsDown (e ∷ es) st d = run-IsDown es (step os e st) (step-IsDown e st d)

  -- What the accept thread and the sessions leave alone.
  record SameControl (st st' : State os) : Type 0 where
    running : st'.server.is_running ≡ st.server.is_running
    listening : st'.server.server_socket ≡ st.server.server_socket
    stopper : st'.stopper ≡ st.stopper

  accept_step-SameControl :
      (phase : Phase) (st : State os) → SameControl st (accept_step os phase st)
  unfolding accept_step test_running accept_client enter admit cleanup_finished_sessions
  accept_step-SameControl testing st = record { running = refl; listening = refl; stopper = refl }
  accept_step-SameControl waiting st = record {
    running = ground arith;
    listening = ground arith;
    stopper = ground arith;
  }
  accept_step-SameControl (holding c a) st = record {
    running = refl;
    listening = refl;
    stopper = refl;
  }
  accept_step-SameControl left st = record { running = refl; listening = refl; stopper = refl }

  finish_step-SameControl : (id : ℕ) (st : State os) → SameControl st (finish_step os id st)
  unfolding finish_step
  finish_step-SameControl id st = record { running = refl; listening = refl; stopper = refl }

  abbrev Consistent : State os → Type 0
  Consistent st = HasDone st.stopper st.server

  SameControl-HasDone :
      (k : Stopping) (s s' : Server)
      → s'.is_running ≡ s.is_running
      → s'.server_socket ≡ s.server_socket
      → HasDone k s
      → HasDone k s'
  SameControl-HasDone resting s s' r l h = tt
  SameControl-HasDone flagged s s' r l h = r ∙ h
  SameControl-HasDone closed s s' r l h = (r ∙ h.0, ap is_valid l ∙ h.1)

  SameControl-Consistent : (st st' : State os) → SameControl st st' → Consistent st → Consistent st'
  SameControl-Consistent st st' c h =
      rw c.stopper (SameControl-HasDone st.stopper st.server st'.server c.running c.listening h)

  stop_step-Consistent :
      (k : Stopping) (st : State os)
      → st.stopper ≡ k
      → HasDone k st.server
      → Consistent (stop_step os k st)
  unfolding stop_step close_listening
  stop_step-Consistent resting st e h = elim (Bool-cases st.server.is_running) [
    | inl r ↦ rw r refl
    | inr r ↦ rw (r, e) tt
  ]
  stop_step-Consistent flagged st e h = (h, close_listening-closed os st.server st.world)
  stop_step-Consistent closed st e h = tt

  step-Consistent : (e : Event) (st : State os) → Consistent st → Consistent (step os e st)
  unfolding step
  step-Consistent accepting st h =
      SameControl-Consistent st _ (accept_step-SameControl st.phase st) h
  step-Consistent stopping st h = stop_step-Consistent st.stopper st refl h
  step-Consistent (finishing id) st h =
      SameControl-Consistent st _ (finish_step-SameControl id st) h

  run-Consistent : (es : List Event) (st : State os) → Consistent st → Consistent (run os es st)
  unfolding run
  run-Consistent [] st h = h
  run-Consistent (e ∷ es) st h = run-Consistent es (step os e st) (step-Consistent e st h)

  clear-IsDown :
      (st : State os)
      → HasDone closed st.server
      → EmptyHanded st.phase
      → IsDown (stop_step os closed st)
  unfolding stop_step clear_table
  clear-IsDown st h e = record {
    not_running = h.0;
    closed = h.1;
    empty = refl;
    empty_handed = e;
    over = refl;
  }

  -- Take any steps of all threads from a state in which no thread is in `stop`. If at the end a
  -- thread in `stop` is about to lock the table while the accept thread has no client in hand, then
  -- after its next step, whatever happens afterwards, the server is not running, its listening
  -- socket is closed and its table is empty, and the accept thread leaves its loop at its next step.
  pub stop_clean :
      (st : State os) (before after : List Event)
      → st.stopper ≡ resting
      → (run os before st).stopper ≡ closed
      → EmptyHanded (run os before st).phase
      → let down = run os after (step os stopping (run os before st)) in
        IsDown down × (step os accepting down ≡ record down { phase = left })
  unfolding step
  stop_clean st before after r c h =
      let mid = run os before st in
      let done = rw c at (run-Consistent before st (rw r tt)) in
      let d = run-IsDown after (stop_step os mid.stopper mid) (rw c (clear-IsDown mid done h)) in
      (d, accept_step-left _ _ refl d d.empty_handed)
