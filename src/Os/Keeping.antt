-- ===== src/Os/Keeping.antt =====
-- A property of the world that calls of the system keep.
use multi_client_media_strea.Base.{ℕ, Bytes}
use multi_client_media_strea.FilePath.{FilePath}
use multi_client_media_strea.Os.{Os}

-- The calls of a session on its descriptor but `recv`, on its streams, and the loads of its flag.
pub record KeptBySession (os : Os) (I : os.World → Type 0) (fd : ℕ) : Type 0 where
  pub by_send : (chunk : Bytes) (w : os.World) → I w → I (os.send fd chunk w).1
  pub by_shutdown : (w : os.World) → I w → I (os.shutdown fd w)
  pub by_close : (w : os.World) → I w → I (os.close fd w)
  pub by_read : (h n : ℕ) (w : os.World) → I w → I (os.read h n w).1
  pub by_stop_requested : (w : os.World) → I w → I (os.stop_requested w).1

-- The calls of the file manager, of which only `weakly_canonical` may have a path that is not
-- allowed.
pub record KeptByFiles (os : Os) (I : os.World → Type 0) (Allowed : FilePath → Type 0)
    : Type 0 where
  pub by_weakly_canonical : (p : FilePath) (w : os.World) → I w → I (os.weakly_canonical p w).1
  pub by_exists : (p : FilePath) (w : os.World) → Allowed p → I w → I (os.exists p w).1
  pub by_is_directory : (p : FilePath) (w : os.World) → Allowed p → I w → I (os.is_directory p w).1
  pub by_is_regular_file :
      (p : FilePath) (w : os.World) → Allowed p → I w → I (os.is_regular_file p w).1
  pub by_file_size : (p : FilePath) (w : os.World) → Allowed p → I w → I (os.file_size p w).1
  pub by_directory_entries :
      (p : FilePath) (w : os.World) → Allowed p → I w → I (os.directory_entries p w).1
  pub by_probe_entry : (name : Bytes) (w : os.World) → I w → I (os.probe_entry name w).1
  pub by_entry_size : (name : Bytes) (w : os.World) → I w → I (os.entry_size name w).1
  pub by_open_read : (p : FilePath) (w : os.World) → Allowed p → I w → I (os.open_read p w).1
