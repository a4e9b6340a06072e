-- ===== src/Server/Table.antt =====
-- The table of sessions: what is erased, what stays, and what `stop` leaves.
use mathlib.Core.List.{Perm, perm_middle}
use mathlib.Core.List.Perm
use multi_client_media_strea.Base.{
  ℕ, Bool, true, false, List, [], ◌∷◌, ◌++◌, map, ◌≡◌, refl, ap₂, arith, ℤ, pos, negsuc, All,
}
use multi_client_media_strea.ClientSession
use multi_client_media_strea.ClientSession.{ClientSession}
use multi_client_media_strea.Os.{Os}
use multi_client_media_strea.Server.{
  Server, SessionWorker, place, cleanup, stop_sessions, join_all, close_listening, clear_table,
  shut_down, stop,
}
use multi_client_media_strea.Socket
use multi_client_media_strea.Socket.{Socket, is_valid}

abbrev pub sessions : List SessionWorker → List ClientSession
sessions = map (λ worker. worker.session)

abbrev pub IsActive : SessionWorker → Type 0
IsActive worker = worker.session.is_active ≡ true

-- The session is over and its thread has been joined.
pub record IsGone (worker : SessionWorker) : Type 0 where
  pub over : worker.session.is_active ≡ false
  pub joined : worker.joinable ≡ false

-- What `cleanup` makes of the table.
pub record Cleaned (workers kept erased : List SessionWorker) : Type 0 where
  pub kept_active : All IsActive kept
  pub erased_gone : All IsGone erased
  pub none_lost : Perm (sessions workers) (sessions kept ++ sessions erased)

place-Cleaned :
    (active : Bool) (worker : SessionWorker) (rest kept erased : List SessionWorker)
    → worker.session.is_active ≡ active
    → Cleaned rest kept erased
    → Cleaned
        (worker ∷ rest)
        (place active worker (kept, erased)).0
        (place active worker (kept, erased)).1
unfolding place
place-Cleaned true worker rest kept erased e c = record {
  kept_active = (e, c.kept_active);
  erased_gone = c.erased_gone;
  none_lost = Perm.cons worker.session c.none_lost;
}
place-Cleaned false worker rest kept erased e c = record {
  kept_active = c.kept_active;
  erased_gone = (record { over = e; joined = refl }, c.erased_gone);
  none_lost =
      Perm.trans (Perm.cons worker.session c.none_lost)
        (Perm.symm (perm_middle (sessions kept) (sessions erased)));
}

-- `cleanup` keeps the workers whose session is active and erases the others, which are over, each
-- with its thread joined. The sessions kept and those erased together are the table's, up to order.
pub cleanup-Cleaned :
    (workers : List SessionWorker) → Cleaned workers (cleanup workers).0 (cleanup workers).1
unfolding cleanup
cleanup-Cleaned [] = record { kept_active = tt; erased_gone = tt; none_lost = Perm.refl [] }
cleanup-Cleaned (worker ∷ rest) =
    place-Cleaned worker.session.is_active worker rest _ _ refl (cleanup-Cleaned rest)

abbrev pub ids : List SessionWorker → List ℕ
ids = map (λ worker. worker.session.session_id)

module _ (os : Os) where
  stopped-over :
      (s : ClientSession) (w : os.World) → (ClientSession.stop os s w).0.is_active ≡ false
  unfolding ClientSession.stop
  stopped-over s w = ground arith

  stopped-id :
      (s : ClientSession) (w : os.World) → (ClientSession.stop os s w).0.session_id ≡ s.session_id
  unfolding ClientSession.stop
  stopped-id s w = ground arith

  stop_workers-IsGone :
      (workers : List SessionWorker) (w : os.World)
      → All IsGone (join_all os (stop_sessions os workers w).0)
  unfolding stop_sessions join_all
  stop_workers-IsGone [] w = tt
  stop_workers-IsGone (worker ∷ rest) w = (
    record { over = stopped-over worker.session w; joined = refl },
    stop_workers-IsGone rest (ClientSession.stop os worker.session w).1,
  )

  stop_workers-ids :
      (workers : List SessionWorker) (w : os.World)
      → ids (join_all os (stop_sessions os workers w).0) ≡ ids workers
  unfolding stop_sessions join_all
  stop_workers-ids [] w = refl
  stop_workers-ids (worker ∷ rest) w =
      ap₂ ◌∷◌ (stopped-id worker.session w)
        (stop_workers-ids rest (ClientSession.stop os worker.session w).1)

  -- A server that is down, and what became of the workers of its table.
  pub record Stopped (before after : Server) (gone : List SessionWorker) : Type 0 where
    pub not_running : after.is_running ≡ false
    pub closed : is_valid after.server_socket ≡ false
    pub empty : after.workers ≡ []
    pub all_gone : All IsGone gone
    pub all_ids : ids gone ≡ ids before.workers

  closed_invalid :
      (z : ℤ) (w : os.World) → is_valid (Socket.close os (record { fd = z }) w).0 ≡ false
  unfolding Socket.close
  closed_invalid (pos fd) w = refl
  closed_invalid (negsuc n) w = refl

  pub close_listening-closed :
      (server : Server) (w : os.World)
      → is_valid (close_listening os server w).0.server_socket ≡ false
  unfolding close_listening
  close_listening-closed server w =
      closed_invalid server.server_socket.fd (Socket.shutdown os server.server_socket w)

  shut_down-Stopped :
      (server : Server) (w : os.World)
      → Stopped server (shut_down os server w).0.0 (shut_down os server w).0.1
  unfolding shut_down close_listening clear_table
  shut_down-Stopped server w =
      let w₁ = Socket.shutdown os server.server_socket w in
      let w₂ = (Socket.close os server.server_socket w₁).1 in
      record {
        not_running = refl;
        closed = closed_invalid server.server_socket.fd w₁;
        empty = refl;
        all_gone = stop_workers-IsGone server.workers w₂;
        all_ids = stop_workers-ids server.workers w₂;
      }

  stop-running :
      (server : Server) (w : os.World)
      → server.is_running ≡ true
      → stop os server w ≡ shut_down os server w
  unfolding stop
  stop-running server w running = ground arith

  -- `stop` of a running server leaves it not running, its listening socket closed and its table empty;
  -- the sessions that were in the table are over, each with its thread joined, none left out.
  pub stop-Stopped :
      (server : Server) (w : os.World)
      → server.is_running ≡ true
      → Stopped server (stop os server w).0.0 (stop os server w).0.1
  stop-Stopped server w running = rw (stop-running server w running) (shut_down-Stopped server w)

  -- A `stop` after a `stop` changes neither the server nor the world, and stops no session.
  pub stop-stop :
      (server : Server) (w u : os.World)
      → stop os (stop os server w).0.0 u ≡ (((stop os server w).0.0, []), u)
  unfolding stop shut_down close_listening clear_table
  stop-stop server w u = ground arith
