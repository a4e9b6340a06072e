-- ===== src/FileManager.antt =====
-- src/FileManager.cpp: the media directory, and nothing outside it.
pub mod Inside
pub mod Safety
pub mod Keeps
pub mod Quiet
pub mod Listing
use multi_client_media_strea.Base.{
  ℕ, Bool, true, false, ◌&&◌, ◌||◌, not, List, [], ◌∷◌, ◌++◌, Option, none, some, Bytes, codes,
  bytes_lt, ◌==◌, if◌then◌else◌,
}
use multi_client_media_strea.FilePath.{
  FilePath, to_path, append, string, is_empty_path, lexically_relative, no_bytes, empty_path,
}
use multi_client_media_strea.Protocol.{MediaFileInfo}
use multi_client_media_strea.Os.{Os, Probe}
use multi_client_media_strea.Os.Monad.{M}

pub record FileManager : Type 0 where
  pub root_dir : FilePath
  pub canonical_root : FilePath

-- The constructor.
abbrev pub make : Bytes → FileManager
make root_dir = record { root_dir = to_path root_dir; canonical_root = empty_path }

-- `filename.find('\0') != npos`
pub has_nul : Bytes → Bool
has_nul [] = false
has_nul (c ∷ s) = c == 0 || has_nul s

-- `s.rfind("..", 0) == 0`
unfoldable pub starts_dot_dot : Bytes → Bool
starts_dot_dot [] = false
starts_dot_dot (a ∷ []) = false
starts_dot_dot (a ∷ (b ∷ s)) = a == b'.' && b == b'.'

-- The test on the canonical path: its way from the root must not lead out.
unfoldable pub inside_root : FilePath → FilePath → Bool
unfolding starts_dot_dot
inside_root root weakly_canon =
    let rel = lexically_relative weakly_canon root in
    not (is_empty_path rel || starts_dot_dot (string rel) || rel.absolute)

-- The tests on the text of the name, before the file system is asked.
unfoldable pub refused_name : Bytes → Bool
unfolding has_nul
refused_name filename = no_bytes filename || has_nul filename || (to_path filename).absolute

abbrev pub is_hidden : Bytes → Bool
is_hidden [] = false
is_hidden (c ∷ s) = c == b'.'

module _ (os : Os) where
  open os use {
    World, exists, create_directories, canonical, weakly_canonical, is_directory, is_regular_file,
    file_size, directory_entries, probe_entry, entry_size, open_read,
  }

  -- The second half of `init`.
  unfoldable pub set_root : FileManager → World → (Bool × FileManager) × World
  set_root fm w =
      let (root, w') = canonical fm.root_dir w in
      elim root [
        | none ↦ ((false, record fm { canonical_root = empty_path }), w')
        | some p ↦ ((true, record fm { canonical_root = p }), w')
      ]

  unfoldable pub init : FileManager → World → (Bool × FileManager) × World
  unfolding set_root
  init fm w =
      let (there, w₁) = exists fm.root_dir w in
      let (made, w₂) = create_directories fm.root_dir w₁ in
      if there then set_root fm w₁ else if made.created then set_root fm w₂ else ((false, fm), w₂)

  -- The out parameter is the value of `some`.
  unfoldable pub resolve_safe_path : FileManager → Bytes → World → Option FilePath × World
  unfolding refused_name inside_root
  resolve_safe_path fm filename w =
      let (answer, w') = weakly_canonical (append fm.canonical_root (to_path filename)) w in
      if refused_name filename then (none, w) else elim answer [
        | none ↦ (none, w')
        | some weakly_canon ↦
            (if inside_root fm.canonical_root weakly_canon then some weakly_canon else none, w')
      ]

  unfoldable pub file_exists : FileManager → Bytes → World → Bool × World
  file_exists fm filename w =
      let (safe_path, w₁) = resolve_safe_path fm filename w in
      elim safe_path [ none ↦ (false, w₁) | some p ↦ is_regular_file p w₁ ]

  unfoldable pub get_file_size : FileManager → Bytes → World → Option ℕ × World
  get_file_size fm filename w =
      let (safe_path, w₁) = resolve_safe_path fm filename w in
      elim safe_path [
        | none ↦ (none, w₁)
        | some p ↦
            let (regular, w₂) = is_regular_file p w₁ in
            if regular then file_size p w₂ else (none, w₂)
      ]

  -- The result is the handle of the stream.
  unfoldable pub open_binary_file : FileManager → Bytes → World → Option ℕ × World
  open_binary_file fm filename w =
      let (safe_path, w₁) = resolve_safe_path fm filename w in
      elim safe_path [ none ↦ (none, w₁) | some p ↦ open_read p w₁ ]

  -- The loop of `list_files`. `failed` is `ec` as the round before left it.
  unfoldable pub collect :
      List Bytes → Bool → List MediaFileInfo → World → List MediaFileInfo × World
  collect [] failed files w = (files, w)
  collect (name ∷ rest) failed files w = elim failed [
    | true ↦ (files, w)
    | false ↦
        let (probe, w₁) = probe_entry name w in
        elim (probe.regular && not (is_hidden name)) [
          | false ↦ collect rest probe.failed files w₁
          | true ↦
              let (size, w₂) = entry_size name w₁ in
              elim size [
                | none ↦ collect rest true files w₂
                | some n ↦
                    collect rest false (files ++ record { filename = name; size_bytes = n } ∷ []) w₂
              ]
        ]
  ]

-- `std::sort` by name.
unfoldable pub insert_file : MediaFileInfo → List MediaFileInfo → List MediaFileInfo
insert_file f [] = f ∷ []
insert_file f (g ∷ gs) =
    if bytes_lt g.filename f.filename then g ∷ insert_file f gs else f ∷ (g ∷ gs)

unfoldable pub sort_files : List MediaFileInfo → List MediaFileInfo
unfolding insert_file
sort_files [] = []
sort_files (f ∷ fs) = insert_file f (sort_files fs)

unfoldable pub list_files : (os : Os) → FileManager → os.World → List MediaFileInfo × os.World
unfolding collect sort_files
list_files os fm w =
    let (there, w₁) = os.exists fm.canonical_root w in
    let (directory, w₂) = os.is_directory fm.canonical_root w₁ in
    let (entries, w₃) = os.directory_entries fm.canonical_root w₂ in
    let (files, w₄) = collect os entries false [] w₃ in
    if not there then ([], w₁) else if not directory then ([], w₂) else (sort_files files, w₄)
