-- ===== src/ClientSession/Silence.antt =====
-- When a session neither takes nor hands over a byte.
use multi_client_media_strea.Base.{ℕ, zero, suc, false, ◌≡◌, ◌∙◌}
use multi_client_media_strea.ClientSession.{ClientSession, load_active, run_round, run_loop}
use multi_client_media_strea.ClientSession.Steps.{load_active-view, load_active-over}
use multi_client_media_strea.FileManager.{FileManager}
use multi_client_media_strea.Os.{Os}
use multi_client_media_strea.Os.Contract.{Wire}
use multi_client_media_strea.Os.Monad.{M, Ensures, Ensures-and, Ensures-map, Ensures->>=}

module _ (os : Os) (wire : Wire os) (fd : ℕ) where
  open wire use {delivered, received}

  -- Nothing is handed over or taken.
  pub record Silent (w v : os.World) : Type 0 where
    pub nothing_sent : delivered fd v ≡ delivered fd w
    pub nothing_taken : received fd v ≡ received fd w

  pub Silent-trans : (w u v : os.World) → Silent w u → Silent u v → Silent w v
  Silent-trans w u v a b = record {
    nothing_sent = b.nothing_sent ∙ a.nothing_sent;
    nothing_taken = b.nothing_taken ∙ a.nothing_taken;
  }

  pub load_active-Silent :
      (t : ClientSession) (w : os.World) → Ensures (λ r. Silent w r.1) (load_active os t w)
  load_active-Silent t w =
      Ensures-map _ _ (load_active os t w)
        (λ r h. record { nothing_sent = h.0; nothing_taken = h.1 })
        (Ensures-and _ _ _ (load_active-view os (delivered fd) (wire.delivered_untouched fd) t w)
          (load_active-view os (received fd) (wire.received_untouched fd) t w))

  abbrev Hushed : os.World → ClientSession × os.World → Type 0
  Hushed w r = Silent w r.1

  module _ (fm : FileManager) (rounds : ℕ) where
    pub run_round-over :
        (again : ClientSession → M os.World ClientSession) (w v : os.World) (t : ClientSession)
        → t.is_active ≡ false
        → Silent w v
        → Ensures (Hushed w) (run_round os rounds again fm t v)
    unfolding run_round
    run_round-over again w v t over i = rw (over, run_round) i

    -- A session that is over does nothing any more.
    pub run_loop-over :
        (fuel : ℕ) (w : os.World) (t : ClientSession)
        → t.is_active ≡ false
        → Ensures (Hushed w) (run_loop os rounds fuel fm t w)
    unfolding run_loop
    run_loop-over zero w t over = tt
    run_loop-over (suc fuel) w t over =
        Ensures->>= _ (Hushed w) _ (load_active os t) w
          (Ensures-and _ _ _ (load_active-over os t w over) (load_active-Silent t w))
          (λ t' v h. run_round-over (run_loop os rounds fuel fm) w v t' h.0 h.1)
