-- ===== src/FileManager/Quiet.antt =====
-- The file manager's operations touch nothing but the file system.
use multi_client_media_strea.Base.{◌≡◌, refl, ◌∙◌, Bytes}
use multi_client_media_strea.FileManager.Keeps.{
  get_file_size-Keeps, open_binary_file-Keeps, list_files-Keeps,
}
use multi_client_media_strea.FileManager.{FileManager, get_file_size, open_binary_file, list_files}
use multi_client_media_strea.Os.Contract.{UntouchedByFiles}
use multi_client_media_strea.Os.Keeping.{KeptByFiles}
use multi_client_media_strea.Os.{Os}

module _ {A : Type 0} (os : Os) (view : os.World → A) (same : UntouchedByFiles os view) where
  -- A view that no call changes stays what it was; every path is allowed.
  pub unchanged : (before : A) → KeptByFiles os (λ w. view w ≡ before) (λ p. Unit {0})
  unchanged before = record {
    by_weakly_canonical = λ p w e. same.by_weakly_canonical p w ∙ e;
    by_exists = λ p w a e. same.by_exists p w ∙ e;
    by_is_directory = λ p w a e. same.by_is_directory p w ∙ e;
    by_is_regular_file = λ p w a e. same.by_is_regular_file p w ∙ e;
    by_file_size = λ p w a e. same.by_file_size p w ∙ e;
    by_directory_entries = λ p w a e. same.by_directory_entries p w ∙ e;
    by_probe_entry = λ name w e. same.by_probe_entry name w ∙ e;
    by_entry_size = λ name w e. same.by_entry_size name w ∙ e;
    by_open_read = λ p w a e. same.by_open_read p w ∙ e;
  }

  pub list_files-view : (fm : FileManager) (w : os.World) → view (list_files os fm w).1 ≡ view w
  list_files-view fm w =
      list_files-Keeps os (λ v. view v ≡ view w) (λ p. Unit {0}) (unchanged (view w)) fm w tt refl

  module _ (fm : FileManager) (filename : Bytes) (w : os.World) where
    pub get_file_size-view : view (get_file_size os fm filename w).1 ≡ view w
    get_file_size-view =
        get_file_size-Keeps os (λ v. view v ≡ view w) (λ p. Unit {0}) (unchanged (view w)) fm
          (λ name p v v' e. tt) filename w refl

    pub open_binary_file-view : view (open_binary_file os fm filename w).1 ≡ view w
    open_binary_file-view =
        open_binary_file-Keeps os (λ v. view v ≡ view w) (λ p. Unit {0}) (unchanged (view w)) fm
          (λ name p v v' e. tt) filename w refl
