-- ===== src/Server/Each.antt =====
-- What holds of each worker in the table, if each step keeps it for one.
use multi_client_media_strea.Base.{
  ℕ, Bool, true, false, List, [], ◌∷◌, inl, inr, Bool-cases, ◌==◌, All,
}
use multi_client_media_strea.Os.{Os}
use multi_client_media_strea.Server.{SessionWorker, place, cleanup}
use multi_client_media_strea.Server.Threads.{finish}
use multi_client_media_strea.Socket.{Socket}

module _ {κ} (P : SessionWorker → Type κ) where
  place-All :
      (active : Bool) (worker : SessionWorker) (kept erased : List SessionWorker)
      → P worker
      → All P kept
      → All P (place active worker (kept, erased)).0
  unfolding place
  place-All true worker kept erased p h = (p, h)
  place-All false worker kept erased p h = h

  pub cleanup-All : (workers : List SessionWorker) → All P workers → All P (cleanup workers).0
  unfolding cleanup
  cleanup-All [] h = tt
  cleanup-All (worker ∷ rest) h =
      place-All worker.session.is_active worker _ _ h.0 (cleanup-All rest h.1)

  -- The worker of a session that has ended.
  abbrev pub ended : SessionWorker → Socket → SessionWorker
  ended worker socket' = record worker {
    session = record worker.session { is_active = false; socket = socket' };
  }

  pub finish-All :
      (os : Os) (id : ℕ) (workers : List SessionWorker) (w : os.World)
      → ((worker : SessionWorker) (socket' : Socket) → P worker → P (ended worker socket'))
      → All P workers
      → All P (finish os id workers w).0
  unfolding finish
  finish-All os id [] w k h = tt
  finish-All os id (worker ∷ rest) w k h = elim (Bool-cases (worker.session.session_id == id)) [
    | inl e ↦ rw (e, finish) (k worker _ h.0, h.1)
    | inr e ↦ rw (e, finish) (h.0, finish-All os id rest w k h.1)
  ]
