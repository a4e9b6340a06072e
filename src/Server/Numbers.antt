-- ===== src/Server/Numbers.antt =====
-- The ids of the sessions in the table.
use multi_client_media_strea.Base.{
  ℕ, ◌+◌, ◌%◌, ◌^◌, ◌<◌, ◌≤◌, Bool, true, false, List, [], ◌∷◌, ◌++◌, ◌≡◌, ◌≢◌, refl, arith, inl,
  inr, Bool-cases, length, ◌==◌, All,
}
use multi_client_media_strea.Os.{Os, Address}
use multi_client_media_strea.Server.{
  Server, SessionWorker, place, cleanup, cleanup_finished_sessions, close_listening, clear_table,
  admit,
}
use multi_client_media_strea.Server.Each.{cleanup-All, finish-All}
use multi_client_media_strea.Server.Threads.{
  Phase, testing, waiting, left, holding, Stopping, resting, flagged, closed, Event, accepting,
  stopping, finishing, State, test_running, accept_client, enter, accept_step, stop_step, finish,
  finish_step, step, run,
}
use multi_client_media_strea.ClientSession.{make_session}
use multi_client_media_strea.Socket.{Socket}

-- The ids are those of the sessions so far, and no two sessions share one.
abbrev pub Numbered : ℕ → List SessionWorker → Type 0
Numbered next [] = Unit {0}
Numbered next (worker ∷ rest) =
    (worker.session.session_id < next)
    × All (λ (other : SessionWorker). other.session.session_id ≢ worker.session.session_id) rest
    × Numbered next rest

place-Numbered :
    (next : ℕ) (active : Bool) (worker : SessionWorker) (kept erased : List SessionWorker)
    → Numbered next (worker ∷ kept)
    → Numbered next (place active worker (kept, erased)).0
unfolding place
place-Numbered next true worker kept erased h = h
place-Numbered next false worker kept erased h = h.2

cleanup-Numbered :
    (next : ℕ) (workers : List SessionWorker)
    → Numbered next workers
    → Numbered next (cleanup workers).0
unfolding cleanup
cleanup-Numbered next [] h = tt
cleanup-Numbered next (worker ∷ rest) h =
    place-Numbered next worker.session.is_active worker _ _
      (h.0, cleanup-All _ rest h.1, cleanup-Numbered next rest h.2)

others-append :
    (id : ℕ) (worker : SessionWorker) (workers : List SessionWorker)
    → worker.session.session_id ≢ id
    → All (λ (other : SessionWorker). other.session.session_id ≢ id) workers
    → All (λ (other : SessionWorker). other.session.session_id ≢ id) (workers ++ worker ∷ [])
others-append id worker [] n h = (n, tt)
others-append id worker (w ∷ ws) n h = (h.0, others-append id worker ws n h.1)

Numbered-append :
    (next : ℕ) (worker : SessionWorker) (workers : List SessionWorker)
    → worker.session.session_id ≡ next
    → Numbered next workers
    → Numbered (next + 1) (workers ++ worker ∷ [])
Numbered-append next worker [] e h = (omega arith, tt, tt)
Numbered-append next worker (w ∷ ws) e h = (
  omega (arith, h.0),
  others-append w.session.session_id worker ws (λ q. omega (arith, h.0)) h.1,
  Numbered-append next worker ws e h.2,
)

-- What matters of a state here.
abbrev pub WellNumbered : Server → Type 0
WellNumbered server = Numbered server.next_session_id server.workers

module _ (os : Os) where
  admit-WellNumbered :
      (server : Server) (client_sock : Socket) (client : Address) (w : os.World)
      → server.next_session_id + 1 < 2 ^ 64
      → WellNumbered server
      → WellNumbered (admit os server client_sock client w).0
        × ((admit os server client_sock client w).0.next_session_id ≡ server.next_session_id + 1)
  unfolding admit cleanup_finished_sessions make_session
  admit-WellNumbered server client_sock client w b h =
      let same : (server.next_session_id + 1) % 2 ^ 64 ≡ server.next_session_id + 1 = omega arith in
      rw same (
        Numbered-append server.next_session_id _ (cleanup server.workers).0 refl
            (cleanup-Numbered server.next_session_id server.workers h),
        refl,
      )

  finish-Numbered :
      (next id : ℕ) (workers : List SessionWorker) (w : os.World)
      → Numbered next workers
      → Numbered next (finish os id workers w).0
  unfolding finish
  finish-Numbered next id [] w h = tt
  finish-Numbered next id (worker ∷ rest) w h =
      elim (Bool-cases (worker.session.session_id == id)) [
        | inl e ↦ rw (e, finish) h
        | inr e ↦
            rw (e, finish)
              (
                h.0,
                finish-All (λ other. other.session.session_id ≢ worker.session.session_id) os id
                    rest w (λ other socket' n. n) h.1,
                finish-Numbered next id rest w h.2,
              )
      ]

  -- The state is well numbered, and at most one more id has been given out.
  abbrev Kept : State os → State os → Type 0
  Kept st st' =
      WellNumbered st'.server × (st'.server.next_session_id ≤ st.server.next_session_id + 1)

  accept_client-server : (st : State os) → (accept_client os st).server ≡ st.server
  unfolding accept_client
  accept_client-server st = ground arith

  accept_step-Kept :
      (phase : Phase) (st : State os)
      → st.server.next_session_id + 1 < 2 ^ 64
      → WellNumbered st.server
      → Kept st (accept_step os phase st)
  unfolding accept_step test_running enter
  accept_step-Kept testing st b h = (h, omega arith)
  accept_step-Kept waiting st b h = rw (accept_client-server st) (h, omega arith)
  accept_step-Kept (holding c a) st b h =
      let r = admit-WellNumbered st.server c a st.world b h in (r.0, omega (arith, r.1))
  accept_step-Kept left st b h = (h, omega arith)

  stop_step-Kept :
      (k : Stopping) (st : State os) → WellNumbered st.server → Kept st (stop_step os k st)
  unfolding stop_step close_listening clear_table
  stop_step-Kept resting st h = elim (Bool-cases st.server.is_running) [
    | inl r ↦ rw r (h, omega arith)
    | inr r ↦ rw r (h, omega arith)
  ]
  stop_step-Kept flagged st h = (h, omega arith)
  stop_step-Kept closed st h = (tt, omega arith)

  step-Kept :
      (e : Event) (st : State os)
      → st.server.next_session_id + 1 < 2 ^ 64
      → WellNumbered st.server
      → Kept st (step os e st)
  unfolding step finish_step
  step-Kept accepting st b h = accept_step-Kept st.phase st b h
  step-Kept stopping st b h = stop_step-Kept st.stopper st h
  step-Kept (finishing id) st b h =
      (finish-Numbered st.server.next_session_id id st.server.workers st.world h, omega arith)

  -- Whatever the steps of the threads, no two sessions in the table ever share an id, and each id is
  -- below the counter, as long as the counter and the number of steps together are below 2^64.
  pub run-WellNumbered :
      (es : List Event) (st : State os)
      → st.server.next_session_id + length es < 2 ^ 64
      → WellNumbered st.server
      → WellNumbered (run os es st).server
  unfolding run
  run-WellNumbered [] st b h = h
  run-WellNumbered (e ∷ es) st b h =
      let k = step-Kept e st (omega arith) h in
      run-WellNumbered es (step os e st) (omega (arith, k.1)) k.0
