-- ===== src/ClientSession/Bounds.antt =====
-- Which paths a session asks the file system about.
use multi_client_media_strea.Base.{
  ℕ, some, List, [], ◌∷◌, ◌++◌, ◌≡◌, sym, ap, ◌∙◌, inl, All, All-append, append-nil, append_assoc,
  pos,
}
use multi_client_media_strea.ClientSession
use multi_client_media_strea.ClientSession.{ClientSession}
use multi_client_media_strea.ClientSession.Keeps.Run.{run-Holds}
use multi_client_media_strea.FileManager.{FileManager}
use multi_client_media_strea.FileManager.Inside.{IsInside}
use multi_client_media_strea.FileManager.Safety.{AnswersNormal, resolve_safe_path_iff}
use multi_client_media_strea.FilePath.{FilePath}
use multi_client_media_strea.FilePath.Relative.{IsCanonical}
use multi_client_media_strea.Os.{Os}
use multi_client_media_strea.Os.Contract.{Asking}
use multi_client_media_strea.Os.Keeping.{KeptBySession, KeptByFiles}
use multi_client_media_strea.Os.Monad.{Ensures, Ensures-some}

-- What was asked since a given point is all inside the root.
pub record AskedInside (root : FilePath) (start now : List FilePath) : Type 0 where
  pub since : List FilePath
  pub appended : now ≡ start ++ since
  pub inside : All (IsInside root) since

module _ (root : FilePath) (start : List FilePath) where
  AskedInside-same :
      (now later : List FilePath)
      → later ≡ now
      → AskedInside root start now
      → AskedInside root start later
  AskedInside-same now later e i = record {
    since = i.since;
    appended = e ∙ i.appended;
    inside = i.inside;
  }

  AskedInside-ask :
      (now later : List FilePath) (p : FilePath)
      → later ≡ now ++ p ∷ []
      → IsInside root p
      → AskedInside root start now
      → AskedInside root start later
  AskedInside-ask now later p e h i = record {
    since = i.since ++ p ∷ [];
    appended = e ∙ ap (λ l. l ++ p ∷ []) i.appended ∙ append_assoc start i.since (p ∷ []);
    inside = All-append (IsInside root) i.since (p ∷ []) i.inside (h, tt);
  }

root-IsInside : (root : FilePath) → IsCanonical root → IsInside root root
root-IsInside root c = record {
  rest = [];
  below = λ i. record { absolute = c.is_absolute i; elements = sym (append-nil root.elements) i };
  no_dots = tt;
}

module _ (os : Os) (asking : Asking os) (root : FilePath) (start : List FilePath) where
  open asking use {asked}

  abbrev Inside : os.World → Type 0
  Inside w = AskedInside root start (asked w)

  abbrev asked_by_session : (fd : ℕ) → KeptBySession os Inside fd
  asked_by_session fd = record {
    by_send = λ chunk w. AskedInside-same root start _ _ (asking.by_send fd chunk w);
    by_shutdown = λ w. AskedInside-same root start _ _ (asking.untouched.by_shutdown fd w);
    by_close = λ w. AskedInside-same root start _ _ (asking.untouched.by_close fd w);
    by_read = λ h n w. AskedInside-same root start _ _ (asking.by_read h n w);
    by_stop_requested = λ w. AskedInside-same root start _ _ (asking.untouched.by_stop_requested w);
  }

  abbrev asked_by_files : KeptByFiles os Inside (IsInside root)
  asked_by_files = record {
    by_weakly_canonical = λ p w. AskedInside-same root start _ _ (asking.by_weakly_canonical p w);
    by_exists = λ p w. AskedInside-ask root start _ _ p (asking.by_exists p w);
    by_is_directory = λ p w. AskedInside-ask root start _ _ p (asking.by_is_directory p w);
    by_is_regular_file = λ p w. AskedInside-ask root start _ _ p (asking.by_is_regular_file p w);
    by_file_size = λ p w. AskedInside-ask root start _ _ p (asking.by_file_size p w);
    by_directory_entries =
        λ p w. AskedInside-ask root start _ _ p (asking.by_directory_entries p w);
    by_probe_entry = λ name w. AskedInside-same root start _ _ (asking.by_probe_entry name w);
    by_entry_size = λ name w. AskedInside-same root start _ _ (asking.by_entry_size name w);
    by_open_read = λ p w. AskedInside-ask root start _ _ p (asking.by_open_read p w);
  }

run_asks :
    (os : Os) (asking : Asking os) (answers : AnswersNormal os) (rounds fuel fd : ℕ)
    (fm : FileManager) (s : ClientSession) (w : os.World)
    → IsCanonical fm.canonical_root
    → s.socket ≡ record { fd = pos fd }
    → Ensures
        (λ r. AskedInside fm.canonical_root (asking.asked w) (asking.asked r.1))
        (ClientSession.run os rounds fuel fm s w)
run_asks os asking answers rounds fuel fd fm s w rooted connected =
    run-Holds os (Inside os asking fm.canonical_root (asking.asked w)) fd
      (asked_by_session os asking fm.canonical_root (asking.asked w) fd)
      (IsInside fm.canonical_root) (asked_by_files os asking fm.canonical_root (asking.asked w))
      rounds fm (root-IsInside fm.canonical_root rooted)
      (λ filename p v v' e. ((resolve_safe_path_iff os answers fm rooted filename p v v').0 e).2)
      (λ n v. AskedInside-same fm.canonical_root (asking.asked w) _ _ (asking.by_recv fd n v)) fuel
      s w (inl connected)
      (record { since = []; appended = sym (append-nil (asking.asked w)); inside = tt })

-- If `weakly_canonical` answers absolute questions in normal form and the root is canonical, then a session whose
-- run returns has asked the file system only about paths that are the root or stand below it, whatever
-- its client sent; `weakly_canonical` itself is not counted as asking.
pub run-AskedInside :
    (os : Os) (asking : Asking os) (answers : AnswersNormal os) (rounds fuel fd : ℕ)
    (fm : FileManager) (s t : ClientSession) (w v : os.World)
    → IsCanonical fm.canonical_root
    → s.socket ≡ record { fd = pos fd }
    → ClientSession.run os rounds fuel fm s w ≡ some (t, v)
    → AskedInside fm.canonical_root (asking.asked w) (asking.asked v)
run-AskedInside os asking answers rounds fuel fd fm s t w v rooted connected =
    Ensures-some
      (λ (r : ClientSession × os.World).
        AskedInside fm.canonical_root (asking.asked w) (asking.asked r.1))
      _ (t, v) (run_asks os asking answers rounds fuel fd fm s w rooted connected)
