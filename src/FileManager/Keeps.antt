-- ===== src/FileManager/Keeps.antt =====
-- A property of the world that the calls with allowed paths keep, the file manager keeps, if the paths
-- that it lets through are allowed.
use multi_client_media_strea.Base.{
  ℕ, ◌≡◌, refl, Option, none, some, Bool, true, false, not, ◌&&◌, List, [], ◌∷◌, inl, inr, Bytes,
  Bool-cases, Option-cases, if◌then◌else◌,
}
use multi_client_media_strea.FileManager.{
  FileManager, resolve_safe_path, get_file_size, open_binary_file, is_hidden, collect, list_files,
  refused_name,
}
use multi_client_media_strea.FilePath.{FilePath, append, to_path}
use multi_client_media_strea.Os.{Os}
use multi_client_media_strea.Os.Keeping.{KeptByFiles}
use multi_client_media_strea.Protocol.{MediaFileInfo}

module _ (os : Os) (I : os.World → Type 0) (Allowed : FilePath → Type 0)
    (kept : KeptByFiles os I Allowed) (fm : FileManager) where
  collect-Keeps :
      (names : List Bytes) (failed : Bool) (files : List MediaFileInfo) (w : os.World)
      → I w
      → I (collect os names failed files w).1
  unfolding collect
  collect-Keeps [] failed files w i = i
  collect-Keeps (name ∷ names) true files w i = i
  collect-Keeps (name ∷ names) false files w i =
      let probed = os.probe_entry name w in
      let i₁ = kept.by_probe_entry name w i in
      elim (Bool-cases (probed.0.regular && not (is_hidden name))) [
        | inr skipped ↦
            rw (skipped, collect) (collect-Keeps names probed.0.failed files probed.1 i₁)
        | inl shown ↦
            let i₂ = kept.by_entry_size name probed.1 i₁ in
            elim (Option-cases (os.entry_size name probed.1).0) [
              | inl q ↦ rw (shown, q, collect) (collect-Keeps names true files _ i₂)
              | inr (n, q) ↦ rw (shown, q, collect) (collect-Keeps names false _ _ i₂)
            ]
      ]

  pub list_files-Keeps : (w : os.World) → Allowed fm.canonical_root → I w → I (list_files os fm w).1
  unfolding list_files
  list_files-Keeps w a i =
      let root = fm.canonical_root in
      let there = os.exists root w in
      let i₁ = kept.by_exists root w a i in
      let directory = os.is_directory root there.1 in
      let i₂ = kept.by_is_directory root there.1 a i₁ in
      let listed = os.directory_entries root directory.1 in
      let i₃ = kept.by_directory_entries root directory.1 a i₂ in
      elim (Bool-cases there.0) [
        | inr absent ↦ rw (absent, list_files) i₁
        | inl present ↦ elim (Bool-cases directory.0) [
          | inr other ↦ rw (present, other, list_files) i₂
          | inl folder ↦
              rw (present, folder, list_files) (collect-Keeps listed.0 false [] listed.1 i₃)
        ]
      ]

  resolve_safe_path-Keeps :
      (filename : Bytes) (w : os.World) → I w → I (resolve_safe_path os fm filename w).1
  unfolding resolve_safe_path
  resolve_safe_path-Keeps filename w i =
      let answer = os.weakly_canonical (append fm.canonical_root (to_path filename)) w in
      let i' = kept.by_weakly_canonical (append fm.canonical_root (to_path filename)) w i in
      elim (Bool-cases (refused_name filename)) [
        | inl refused ↦ rw (refused, resolve_safe_path) i
        | inr fine ↦ elim (Option-cases answer.0) [
          | inl none_found ↦ rw (fine, none_found, resolve_safe_path) i'
          | inr (p, found) ↦ rw (fine, found, resolve_safe_path) i'
        ]
      ]

  module _
      (safe : (filename : Bytes) (p : FilePath) (w w' : os.World)
        → resolve_safe_path os fm filename w ≡ (some p, w')
        → Allowed p)
      (filename : Bytes) (w : os.World) (i : I w) where
    resolved :
        (answer : Option FilePath × os.World)
        → resolve_safe_path os fm filename w ≡ answer
        → I answer.1
    resolved answer e = rw (← e) (resolve_safe_path-Keeps filename w i)

    pub open_binary_file-Keeps : I (open_binary_file os fm filename w).1
    unfolding open_binary_file
    open_binary_file-Keeps = go (resolve_safe_path os fm filename w) refl
      where
        go :
            (r : Option FilePath × os.World)
            → resolve_safe_path os fm filename w ≡ r
            → I
                (elim r.0 as (λ _. Option ℕ × os.World) [
                  | none ↦ (none, r.1)
                  | some p ↦ os.open_read p r.1
                ]).1
        go (none, u) e = resolved (none, u) e
        go (some p, u) e = kept.by_open_read p u (safe filename p w u e) (resolved (some p, u) e)

    pub get_file_size-Keeps : I (get_file_size os fm filename w).1
    unfolding get_file_size
    get_file_size-Keeps = go (resolve_safe_path os fm filename w) refl
      where
        sized :
            (p : FilePath) (u : os.World)
            → Allowed p
            → I u
            → I
                (let (regular, v) = os.is_regular_file p u in
                  if regular then os.file_size p v else (none, v)).1
        sized p u a j = elim (Bool-cases (os.is_regular_file p u).0) [
          | inl regular ↦ rw regular (kept.by_file_size p _ a (kept.by_is_regular_file p u a j))
          | inr other ↦ rw other (kept.by_is_regular_file p u a j)
        ]

        go :
            (r : Option FilePath × os.World)
            → resolve_safe_path os fm filename w ≡ r
            → I
                (elim r.0 as (λ _. Option ℕ × os.World) [
                  | none ↦ (none, r.1)
                  | some p ↦
                      let (regular, v) = os.is_regular_file p r.1 in
                      if regular then os.file_size p v else (none, v)
                ]).1
        go (none, u) e = resolved (none, u) e
        go (some p, u) e = sized p u (safe filename p w u e) (resolved (some p, u) e)
