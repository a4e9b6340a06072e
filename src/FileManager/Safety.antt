-- ===== src/FileManager/Safety.antt =====
-- The bounds of the root: which paths `resolve_safe_path` lets through, and what the file system is asked.
use multi_client_media_strea.Base.{
  ℕ, Bool, true, false, ◌≡◌, ◌↔◌, refl, ap, arith, Option, none, some, inl, inr, Bool-cases, Bytes,
  if◌then◌else◌,
}
use multi_client_media_strea.FilePath.{FilePath, append, to_path, empty_path}
use multi_client_media_strea.FilePath.Relative.{IsCanonical, IsNormal}
use multi_client_media_strea.Os.{Os}
use multi_client_media_strea.FileManager
use multi_client_media_strea.FileManager.Inside.{IsInside, inside_root_iff}
use multi_client_media_strea.FileManager.{
  set_root, FileManager, starts_dot_dot, inside_root, refused_name, resolve_safe_path,
  get_file_size, open_binary_file,
}

-- `weakly_canonical` answers an absolute question with an absolute path in normal form: no `.` and no
-- `..`, and an empty name only at the end, where the question ends in a slash.
abbrev pub AnswersNormal : Os → Type 0
AnswersNormal os =
    (q p : FilePath) (w w' : os.World)
    → q.absolute ≡ true
    → os.weakly_canonical q w ≡ (some p, w')
    → IsNormal p

append-absolute : (a b : FilePath) → a.absolute ≡ true → (append a b).absolute ≡ true
unfolding append
append-absolute a b h = ground arith

-- `canonical` answers with canonical paths: absolute, with no empty name, `.` or `..`.
abbrev pub FindsCanonical : Os → Type 0
FindsCanonical os =
    (q p : FilePath) (w w' : os.World) → os.canonical q w ≡ (some p, w') → IsCanonical p

module _ (os : Os) (finds : FindsCanonical os) where
  set_root-IsCanonical :
      (fm fm' : FileManager) (w w' : os.World)
      → set_root os fm w ≡ ((true, fm'), w')
      → IsCanonical fm'.canonical_root
  unfolding set_root
  set_root-IsCanonical fm fm' w w' e = go (os.canonical fm.root_dir w) refl e
    where
      go :
          (r : Option FilePath × os.World)
          → os.canonical fm.root_dir w ≡ r
          → (elim r.0 as (λ _. (Bool × FileManager) × os.World) [
            | none ↦ ((false, record fm { canonical_root = empty_path }), r.1)
            | some p ↦ ((true, record fm { canonical_root = p }), r.1)
          ])
            ≡ ((true, fm'), w')
          → IsCanonical fm'.canonical_root
      go (none, u) q h = absurd (cc h)
      go (some p, u) q h =
          rw (← ap (λ (x : (Bool × FileManager) × os.World). x.0.1.canonical_root) h)
            (finds fm.root_dir p w u q)

  -- A file manager that is ready has a canonical root.
  pub init-IsCanonical :
      (fm fm' : FileManager) (w w' : os.World)
      → FileManager.init os fm w ≡ ((true, fm'), w')
      → IsCanonical fm'.canonical_root
  unfolding FileManager.init
  init-IsCanonical fm fm' w w' e = elim (Bool-cases (os.exists fm.root_dir w).0) [
    | inl there ↦ set_root-IsCanonical fm fm' _ w' (rw there at e)
    | inr absent ↦
        let made = os.create_directories fm.root_dir (os.exists fm.root_dir w).1 in
        elim (Bool-cases made.0.created) [
          | inl new ↦ set_root-IsCanonical fm fm' _ w' (rw (absent, new) at e)
          | inr old ↦ absurd (cc (rw (absent, old) at e))
        ]
  ]

module _ (os : Os) (answers : AnswersNormal os) (fm : FileManager)
    (rooted : IsCanonical fm.canonical_root) where
  resolve_sound :
      (filename : Bytes) (p : FilePath) (w w' : os.World)
      → resolve_safe_path os fm filename w ≡ (some p, w')
      → (refused_name filename ≡ false)
        × (os.weakly_canonical (append fm.canonical_root (to_path filename)) w ≡ (some p, w'))
        × (inside_root fm.canonical_root p ≡ true)
  unfolding resolve_safe_path
  resolve_sound filename p w w' e = (ground arith, ground arith, ground arith)

  resolve_complete :
      (filename : Bytes) (p : FilePath) (w w' : os.World)
      → refused_name filename ≡ false
      → os.weakly_canonical (append fm.canonical_root (to_path filename)) w ≡ (some p, w')
      → inside_root fm.canonical_root p ≡ true
      → resolve_safe_path os fm filename w ≡ (some p, w')
  unfolding resolve_safe_path
  resolve_complete filename p w w' a b c = ground arith

  resolved-IsNormal :
      (filename : Bytes) (p : FilePath) (w w' : os.World)
      → os.weakly_canonical (append fm.canonical_root (to_path filename)) w ≡ (some p, w')
      → IsNormal p
  resolved-IsNormal filename p w w' =
      answers (append fm.canonical_root (to_path filename)) p w w'
        (append-absolute fm.canonical_root (to_path filename) rooted.is_absolute)

  -- If `weakly_canonical` answers absolute questions in normal form and the root is canonical, then
  -- `resolve_safe_path` returns a path exactly if the name passes the tests on its text, the path is
  -- what `weakly_canonical` answers for it below the root, and that is the root or stands below it under a first name that does not
  -- begin with two dots.
  pub resolve_safe_path_iff :
      (filename : Bytes) (p : FilePath) (w w' : os.World)
      → (resolve_safe_path os fm filename w ≡ (some p, w')) ↔ (
          (refused_name filename ≡ false)
          × (os.weakly_canonical (append fm.canonical_root (to_path filename)) w ≡ (some p, w'))
          × IsInside fm.canonical_root p)
  resolve_safe_path_iff filename p w w' = (
    λ e.
        let (a, b, c) = resolve_sound filename p w w' e in
        (
          a,
          b,
          (inside_root_iff fm.canonical_root p rooted (resolved-IsNormal filename p w w' b)).0 c,
        ),
    λ (a, b, i).
        resolve_complete filename p w w' a b
          ((inside_root_iff fm.canonical_root p rooted (resolved-IsNormal filename p w w' b)).1 i),
  )

  -- The path that a call of the file system is made with.
  pub record Confined (A : Type 0) (call : FilePath → os.World → A × os.World) (answer : A)
      (w' : os.World) : Type 0 where
    pub path : FilePath
    pub inside : IsInside fm.canonical_root path
    pub before : os.World
    pub called : call path before ≡ (answer, w')

  resolve-IsInside :
      (filename : Bytes) (p : FilePath) (w w' : os.World)
      → resolve_safe_path os fm filename w ≡ (some p, w')
      → IsInside fm.canonical_root p
  resolve-IsInside filename p w w' e = ((resolve_safe_path_iff filename p w w').0 e).2

  -- If `weakly_canonical` answers absolute questions in normal form and the root is canonical, then a handle that
  -- `open_binary_file` returns is the answer of the file system to opening a path inside the root.
  pub open_binary_file-Confined :
      (filename : Bytes) (h : ℕ) (w w' : os.World)
      → open_binary_file os fm filename w ≡ (some h, w')
      → Confined (Option ℕ) os.open_read (some h) w'
  unfolding open_binary_file
  open_binary_file-Confined filename h w w' = go (resolve_safe_path os fm filename w) refl
    where
      go :
          (r : Option FilePath × os.World)
          → resolve_safe_path os fm filename w ≡ r
          → (elim r.0 as (λ _. Option ℕ × os.World) [
            | none ↦ (none, r.1)
            | some p ↦ os.open_read p r.1
          ])
            ≡ (some h, w')
          → Confined (Option ℕ) os.open_read (some h) w'
      go (none, u) q e = absurd (cc e)
      go (some p, u) q e = record {
        path = p;
        inside = resolve-IsInside filename p w u q;
        before = u;
        called = e;
      }

  -- A size that the file system gave for a path inside the root which it said is a regular file.
  pub record Sized (n : ℕ) (w' : os.World) : Type 0 where
    pub path : FilePath
    pub inside : IsInside fm.canonical_root path
    pub before : os.World
    pub between : os.World
    pub regular : os.is_regular_file path before ≡ (true, between)
    pub sized : os.file_size path between ≡ (some n, w')

  regular_sized :
      (p : FilePath) (u : os.World) (n : ℕ) (w' : os.World)
      → (let (regular, v) = os.is_regular_file p u in
          if regular then os.file_size p v else (none, v))
        ≡ (some n, w')
      → (v : os.World) × (os.is_regular_file p u ≡ (true, v)) × (os.file_size p v ≡ (some n, w'))
  regular_sized p u n w' e = ((os.is_regular_file p u).1, ground arith, ground arith)

  -- If `weakly_canonical` answers absolute questions in normal form and the root is canonical, then a size that
  -- `get_file_size` returns is that of a regular file at a path inside the root.
  pub get_file_size-Sized :
      (filename : Bytes) (n : ℕ) (w w' : os.World)
      → get_file_size os fm filename w ≡ (some n, w')
      → Sized n w'
  unfolding get_file_size
  get_file_size-Sized filename n w w' = go (resolve_safe_path os fm filename w) refl
    where
      go :
          (r : Option FilePath × os.World)
          → resolve_safe_path os fm filename w ≡ r
          → (elim r.0 as (λ _. Option ℕ × os.World) [
            | none ↦ (none, r.1)
            | some p ↦
                let (regular, v) = os.is_regular_file p r.1 in
                if regular then os.file_size p v else (none, v)
          ])
            ≡ (some n, w')
          → Sized n w'
      go (none, u) q e = absurd (cc e)
      go (some p, u) q e =
          let (v, reg, siz) = regular_sized p u n w' e in
          record {
            path = p;
            inside = resolve-IsInside filename p w u q;
            before = u;
            between = v;
            regular = reg;
            sized = siz;
          }
