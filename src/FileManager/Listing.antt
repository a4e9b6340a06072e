-- ===== src/FileManager/Listing.antt =====
-- `list_files`: what it returns, in which order, and where it stops early.
use mathlib.Core.List.{Perm, Mem, mem-cons_self, mem-cons_of_mem}
use mathlib.Core.List.Perm
use multi_client_media_strea.Base.{
  ℕ, Bool, true, false, ◌&&◌, not, List, [], ◌∷◌, ◌++◌, append_assoc, append-nil, ◌≡◌, refl, sym,
  ap, ◌∙◌, arith, Bytes, bytes_lt, Bool-cases, Option-cases, inl, inr, if◌then◌else◌, some,
}
use multi_client_media_strea.FileManager.{
  FileManager, is_hidden, collect, insert_file, sort_files, list_files,
}
use multi_client_media_strea.Os.{Os, Probe}
use multi_client_media_strea.Protocol.{MediaFileInfo}

-- No name is before the one in front of it.
abbrev pub IsSorted : List MediaFileInfo → Type 0
IsSorted [] = Unit {0}
IsSorted (f ∷ []) = Unit {0}
IsSorted (f ∷ (g ∷ gs)) = (bytes_lt g.filename f.filename ≡ false) × IsSorted (g ∷ gs)

bytes_lt-asymm : (a b : Bytes) → bytes_lt a b ≡ true → bytes_lt b a ≡ false
unfolding bytes_lt
bytes_lt-asymm [] [] h = refl
bytes_lt-asymm [] (y ∷ b) h = refl
bytes_lt-asymm (x ∷ a) [] h = absurd (ground arith)
bytes_lt-asymm (x ∷ a) (y ∷ b) h = ground (arith, bytes_lt-asymm a b)

insert_file-IsSorted :
    (f : MediaFileInfo) (gs : List MediaFileInfo) → IsSorted gs → IsSorted (insert_file f gs)
unfolding insert_file
insert_file-IsSorted f [] h = tt
insert_file-IsSorted f (g ∷ []) h = elim (Bool-cases (bytes_lt g.filename f.filename)) [
  | inl e ↦ rw (e, insert_file) (bytes_lt-asymm g.filename f.filename e, tt)
  | inr e ↦ rw (e, insert_file) (e, tt)
]
insert_file-IsSorted f (g ∷ (k ∷ gs)) h = elim (Bool-cases (bytes_lt g.filename f.filename)) [
  | inl e ↦ elim (Bool-cases (bytes_lt k.filename f.filename)) [
    | inl e' ↦
        let r = insert_file-IsSorted f (k ∷ gs) h.1 in
        rw (e, e', insert_file) (h.0, rw (e', insert_file) at r)
    | inr e' ↦ rw (e, e', insert_file) (bytes_lt-asymm g.filename f.filename e, (e', h.1))
  ]
  | inr e ↦ rw (e, insert_file) (e, h)
]

sort_files-IsSorted : (fs : List MediaFileInfo) → IsSorted (sort_files fs)
unfolding sort_files
sort_files-IsSorted [] = tt
sort_files-IsSorted (f ∷ fs) = insert_file-IsSorted f (sort_files fs) (sort_files-IsSorted fs)

insert_file-Perm : (f : MediaFileInfo) (gs : List MediaFileInfo) → Perm (insert_file f gs) (f ∷ gs)
unfolding insert_file
insert_file-Perm f [] = Perm.refl _
insert_file-Perm f (g ∷ gs) = elim (Bool-cases (bytes_lt g.filename f.filename)) [
  | inl e ↦
      rw (e, insert_file) (Perm.trans (Perm.cons g (insert_file-Perm f gs)) (Perm.swap f g gs))
  | inr e ↦ rw (e, insert_file) (Perm.refl _)
]

sort_files-Perm : (fs : List MediaFileInfo) → Perm (sort_files fs) fs
unfolding sort_files
sort_files-Perm [] = Perm.refl _
sort_files-Perm (f ∷ fs) =
    Perm.trans (insert_file-Perm f (sort_files fs)) (Perm.cons f (sort_files-Perm fs))

module _ (os : Os) where
  -- The directory of a file manager while nobody changes it. `unchanged` says of a world that the
  -- directory holds just the entries, and the calls that `list_files` makes keep this. Every entry of
  -- the directory can be examined, and each one that a client is to see has a size.
  pub record Folder (fm : FileManager) : Type 1 where
    pub unchanged : os.World → Type 0
    pub entries : List Bytes
    pub regular : Bytes → Bool
    pub size : Bytes → ℕ
    pub by_exists : (w : os.World) → unchanged w → unchanged (os.exists fm.canonical_root w).1
    pub by_is_directory :
        (w : os.World) → unchanged w → unchanged (os.is_directory fm.canonical_root w).1
    pub by_directory_entries :
        (w : os.World) → unchanged w → unchanged (os.directory_entries fm.canonical_root w).1
    pub by_probe_entry :
        (name : Bytes) (w : os.World)
        → Mem name entries
        → unchanged w
        → unchanged (os.probe_entry name w).1
    pub by_entry_size :
        (name : Bytes) (w : os.World)
        → Mem name entries
        → unchanged w
        → unchanged (os.entry_size name w).1
    pub entries_law :
        (w : os.World) → unchanged w → (os.directory_entries fm.canonical_root w).0 ≡ entries
    pub probe_law :
        (name : Bytes) (w : os.World)
        → Mem name entries
        → unchanged w
        → (os.probe_entry name w).0 ≡ record { regular = regular name; failed = false }
    pub size_law :
        (name : Bytes) (w : os.World)
        → Mem name entries
        → (regular name && not (is_hidden name)) ≡ true
        → unchanged w
        → (os.entry_size name w).0 ≡ some (size name)

  module _ (fm : FileManager) (folder : Folder fm) where
    -- The files that a client is to see.
    abbrev pub visible : List Bytes → List MediaFileInfo
    visible [] = []
    visible (name ∷ names) =
        if folder.regular name && not (is_hidden name)
        then record { filename = name; size_bytes = folder.size name } ∷ visible names
        else visible names

    collect-visible :
        (names : List Bytes) (files : List MediaFileInfo) (w : os.World)
        → ((name : Bytes) → Mem name names → Mem name folder.entries)
        → folder.unchanged w
        → (collect os names false files w).0 ≡ files ++ visible names
    unfolding collect
    collect-visible [] files w within same = sym (append-nil files)
    collect-visible (name ∷ names) files w within same =
        let here = within name mem-cons_self in
        let later : (n : Bytes) → Mem n names → Mem n folder.entries =
          λ n m. within n (mem-cons_of_mem name m) in
        let v = (os.probe_entry name w).1 in
        let probed = folder.probe_law name w here same in
        let still = folder.by_probe_entry name w here same in
        elim (Bool-cases (folder.regular name && not (is_hidden name))) [
          | inl shown ↦
              rw (shown, probed, shown, folder.size_law name v here shown still, collect)
                (collect-visible names _ _ later (folder.by_entry_size name v here still)
                  ∙ append_assoc files (_ ∷ []) (visible names))
          | inr skipped ↦
              rw (skipped, probed, skipped, collect)
                (ap (λ b. (collect os names b files v).0) (ap (λ (p : Probe). p.failed) probed)
                  ∙ collect-visible names files v later still)
        ]

    -- If the directory exists and is one, nobody changes it, and every entry of it can be examined and
    -- has a size if a client is to see it, then `list_files` returns its regular files whose name does
    -- not begin with a dot, each once with its size, sorted by name.
    pub list_files-IsSorted :
        (w : os.World)
        → folder.unchanged w
        → (os.exists fm.canonical_root w).0 ≡ true
        → (os.is_directory fm.canonical_root (os.exists fm.canonical_root w).1).0 ≡ true
        → IsSorted (list_files os fm w).0 × Perm (list_files os fm w).0 (visible folder.entries)
    unfolding list_files
    list_files-IsSorted w same there directory =
        let w₁ = (os.exists fm.canonical_root w).1 in
        let w₂ = (os.is_directory fm.canonical_root w₁).1 in
        let same₂ = folder.by_is_directory w₁ (folder.by_exists w same) in
        rw (there, directory, folder.entries_law w₂ same₂, list_files)
          (rw
            (collect-visible folder.entries [] _ (λ n m. m) (folder.by_directory_entries w₂ same₂))
            (
              sort_files-IsSorted (visible folder.entries),
              sort_files-Perm (visible folder.entries),
            ))

  collect-failed :
      (names : List Bytes) (files : List MediaFileInfo) (w : os.World)
      → (collect os names true files w).0 ≡ files
  unfolding collect
  collect-failed [] files w = refl
  collect-failed (name ∷ names) files w = refl

  module _ (bad : Bytes)
      (fails : (w : os.World)
        → (os.probe_entry bad w).0 ≡ record { regular = false; failed = true }) where
    collect_bad :
        (rest : List Bytes) (failed : Bool) (files : List MediaFileInfo) (w : os.World)
        → (collect os (bad ∷ rest) failed files w).0 ≡ files
    unfolding collect
    collect_bad rest true files w = refl
    collect_bad rest false files w =
        rw (ap (λ (p : Probe). p.regular) (fails w), collect)
          (ap (λ b. (collect os rest b files (os.probe_entry bad w).1).0)
              (ap (λ (p : Probe). p.failed) (fails w))
            ∙ collect-failed rest files (os.probe_entry bad w).1)

    -- If an entry cannot be examined, then the loop of `list_files` returns the same whatever entries
    -- stand behind it in the directory, and also if nothing does.
    pub collect_stops :
        (names rest : List Bytes) (failed : Bool) (files : List MediaFileInfo) (w : os.World)
        → (collect os (names ++ (bad ∷ rest)) failed files w).0
          ≡ (collect os names failed files w).0
    unfolding collect
    collect_stops [] rest failed files w = collect_bad rest failed files w
    collect_stops (name ∷ names) rest true files w = refl
    collect_stops (name ∷ names) rest false files w =
        let probed = os.probe_entry name w in
        elim (Bool-cases (probed.0.regular && not (is_hidden name))) [
          | inr skipped ↦
              rw (skipped, collect) (collect_stops names rest probed.0.failed files probed.1)
          | inl shown ↦ elim (Option-cases (os.entry_size name probed.1).0) [
            | inl e ↦
                rw (shown, e, collect)
                  (collect_stops names rest true files (os.entry_size name probed.1).1)
            | inr (n, e) ↦ rw (shown, e, collect) (collect_stops names rest false _ _)
          ]
        ]
