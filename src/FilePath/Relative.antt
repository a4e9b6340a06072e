-- ===== src/FilePath/Relative.antt =====
-- The way from one path in normal form to another.
use multi_client_media_strea.Base.{
  ℕ, suc, true, false, List, [], ◌∷◌, ◌++◌, ◌≡◌, ◌≢◌, refl, ap, inl, inr, arith, Bytes, Bool-cases,
  bytes_eq, bytes_eq_iff, All,
}
use multi_client_media_strea.FilePath.{
  FilePath, dot, dot_dot, no_bytes, mismatch, count_down, count_up, ups, relative_rest,
}

-- A name that stands in a canonical path.
pub record IsName (e : Bytes) : Type 0 where
  pub ne_nil : e ≢ []
  pub ne_dot : e ≢ dot
  pub ne_dot_dot : e ≢ dot_dot

pub record IsCanonical (p : FilePath) : Type 0 where
  pub is_absolute : p.absolute ≡ true
  pub all_names : All IsName p.elements

-- The names of a path in normal form: an empty one stands only at the end, after a last slash.
abbrev pub AllNormal : List Bytes → Type 0
AllNormal [] = Unit {0}
AllNormal (e ∷ []) = (e ≢ dot) × (e ≢ dot_dot)
AllNormal (e ∷ (f ∷ es)) = IsName e × AllNormal (f ∷ es)

-- An absolute path in normal form.
pub record IsNormal (p : FilePath) : Type 0 where
  pub is_absolute : p.absolute ≡ true
  pub all_normal : AllNormal p.elements

pub AllNormal-suffix : (front rest : List Bytes) → AllNormal (front ++ rest) → AllNormal rest
AllNormal-suffix [] rest h = h
AllNormal-suffix (e ∷ []) [] h = tt
AllNormal-suffix (e ∷ []) (r ∷ rest) h = h.1
AllNormal-suffix (e ∷ (f ∷ front)) rest h = AllNormal-suffix (f ∷ front) rest h.1

pub AllNormal-of_names : (es : List Bytes) → All IsName es → AllNormal es
AllNormal-of_names [] h = tt
AllNormal-of_names (e ∷ []) h = ((h.0).ne_dot, (h.0).ne_dot_dot)
AllNormal-of_names (e ∷ (f ∷ es)) h = (h.0, AllNormal-of_names (f ∷ es) h.1)

pub mismatch_splits :
    (xs ys : List Bytes)
    → (common : List Bytes) × (xs ≡ common ++ (mismatch xs ys).0)
      × (ys ≡ common ++ (mismatch xs ys).1)
unfolding mismatch
mismatch_splits [] ys = ([], refl, refl)
mismatch_splits (x ∷ xs) [] = ([], refl, refl)
mismatch_splits (x ∷ xs) (y ∷ ys) = elim (Bool-cases (bytes_eq x y)) [
  | inl e ↦
      let (common, p, q) = mismatch_splits xs ys in
      let x≡y : x ≡ y = (bytes_eq_iff x y).0 e in
      rw (e, mismatch) (x ∷ common, ap (◌∷◌ x) p, rw x≡y (ap (◌∷◌ y) q))
  | inr e ↦ rw (e, mismatch) ([], refl, refl)
]

pub mismatch-append : (xs rest : List Bytes) → mismatch (xs ++ rest) xs ≡ (rest, [])
unfolding mismatch
mismatch-append [] [] = refl
mismatch-append [] (r ∷ rest) = refl
mismatch-append (x ∷ xs) rest = rw ((bytes_eq_iff x x).1 refl, mismatch) (mismatch-append xs rest)

bytes_eq-of_ne : (a b : Bytes) → a ≢ b → bytes_eq a b ≡ false
bytes_eq-of_ne a b ne = ground (arith, bytes_eq_iff a b)

no_bytes-IsName : (e : Bytes) → IsName e → no_bytes e ≡ false
no_bytes-IsName [] h = absurd (h.ne_nil refl)
no_bytes-IsName (c ∷ e) h = refl

count_up-All : (es : List Bytes) → All IsName es → count_up es ≡ 0
unfolding count_up
count_up-All [] h = refl
count_up-All (e ∷ es) h =
    rw (bytes_eq-of_ne e dot_dot (h.0).ne_dot_dot, count_up-All es h.1) (omega arith)

count_down-cons :
    (e : Bytes) (es : List Bytes) → IsName e → count_down (e ∷ es) ≡ suc (count_down es)
unfolding count_down
count_down-cons e es h =
    rw (no_bytes-IsName e h, bytes_eq-of_ne e dot h.ne_dot, bytes_eq-of_ne e dot_dot h.ne_dot_dot)
      (omega arith)

-- From below the base the way leads up first.
pub relative_rest-up :
    (xs : List Bytes) (y : Bytes) (ys : List Bytes)
    → IsName y
    → All IsName ys
    → (n : ℕ) × (relative_rest xs (y ∷ ys)
        ≡ record { absolute = false; elements = dot_dot ∷ ups n xs })
unfolding relative_rest ups
relative_rest-up xs y ys h hs =
    (count_down ys, ground (arith, count_down-cons y ys h, count_up-All (y ∷ ys) (h, hs)))

-- From the base itself the way is the rest of the path, or `.`.
pub relative_rest-down :
    (r : Bytes) (rest : List Bytes)
    → IsName r
    → relative_rest (r ∷ rest) [] ≡ record { absolute = false; elements = r ∷ rest }
unfolding relative_rest count_down count_up ups
relative_rest-down r rest h = ground (arith, no_bytes-IsName r h)
