-- ===== src/ClientSession/Isolation.antt =====
-- A session leaves the other connections alone.
use multi_client_media_strea.Base.{ℕ, ◌≡◌, ◌≢◌, refl, some, ◌∙◌, pos, inl}
use multi_client_media_strea.ClientSession
use multi_client_media_strea.ClientSession.{ClientSession}
use multi_client_media_strea.ClientSession.Keeps.Run.{run-Holds}
use multi_client_media_strea.FileManager.{FileManager}
use multi_client_media_strea.FileManager.Quiet.{unchanged}
use multi_client_media_strea.Os.{Os}
use multi_client_media_strea.Os.Contract.{Separate}
use multi_client_media_strea.Os.Keeping.{KeptBySession}
use multi_client_media_strea.Os.Monad.{Ensures, Ensures-some}

module _ {A : Type 0} (os : Os) (use_of : ℕ → os.World → A) (separate : Separate os use_of)
    (other_fd : ℕ) (start : A) where
  abbrev Unused : os.World → Type 0
  Unused w = use_of other_fd w ≡ start

  abbrev unused_by_session : (fd : ℕ) → fd ≢ other_fd → KeptBySession os Unused fd
  unused_by_session fd apart = record {
    by_send = λ chunk w i. separate.by_send fd other_fd chunk w apart ∙ i;
    by_shutdown = λ w i. separate.by_shutdown fd other_fd w apart ∙ i;
    by_close = λ w i. separate.by_close fd other_fd w apart ∙ i;
    by_read = λ h n w i. separate.by_read other_fd h n w ∙ i;
    by_stop_requested = λ w i. separate.by_stop_requested other_fd w ∙ i;
  }

run_uses :
    {A : Type 0} (os : Os) (use_of : ℕ → os.World → A) (separate : Separate os use_of)
    (rounds fuel fd other_fd : ℕ) (fm : FileManager) (s : ClientSession) (w : os.World)
    → s.socket ≡ record { fd = pos fd }
    → fd ≢ other_fd
    → Ensures
        (λ r. use_of other_fd r.1 ≡ use_of other_fd w)
        (ClientSession.run os rounds fuel fm s w)
run_uses os use_of separate rounds fuel fd other_fd fm s w connected apart =
    run-Holds os (Unused os use_of separate other_fd (use_of other_fd w)) fd
      (unused_by_session os use_of separate other_fd (use_of other_fd w) fd apart) (λ p. Unit)
      (unchanged os (use_of other_fd) (separate.by_files other_fd) (use_of other_fd w)) rounds fm tt
      (λ filename p v v' e. tt) (λ n v i. separate.by_recv fd other_fd n v apart ∙ i) fuel s w
      (inl connected) refl

-- Where the calls on one descriptor leave alone what the process has done with the others, a session
-- whose run returns has left what the process has done with any descriptor but its own as it found it,
-- whatever its client sent.
pub run-use_of :
    {A : Type 0} (os : Os) (use_of : ℕ → os.World → A) (separate : Separate os use_of)
    (rounds fuel fd other_fd : ℕ) (fm : FileManager) (s t : ClientSession) (w v : os.World)
    → s.socket ≡ record { fd = pos fd }
    → fd ≢ other_fd
    → ClientSession.run os rounds fuel fm s w ≡ some (t, v)
    → use_of other_fd v ≡ use_of other_fd w
run-use_of os use_of separate rounds fuel fd other_fd fm s t w v connected apart =
    Ensures-some (λ (r : ClientSession × os.World). use_of other_fd r.1 ≡ use_of other_fd w) _
      (t, v) (run_uses os use_of separate rounds fuel fd other_fd fm s w connected apart)
