-- ===== src/FileManager/Inside.antt =====
-- `inside_root`: which paths stand below the root.
use multi_client_media_strea.Base.{
  Bool, true, false, not, ◌||◌, List, [], ◌∷◌, ◌++◌, append-nil, ◌≡◌, ◌↔◌, refl, sym, ap, ◌∙◌,
  arith, Bytes, All, All-suffix,
}
use multi_client_media_strea.FilePath.{
  FilePath, dot_dot, mismatch, ups, join, count_down, count_up, string, is_empty_path,
  relative_rest, lexically_relative,
}
use multi_client_media_strea.FilePath.Relative.{
  IsName, IsCanonical, mismatch_splits, mismatch-append, relative_rest-up, relative_rest-down,
  IsNormal, AllNormal, AllNormal-suffix,
}
use multi_client_media_strea.FileManager.{starts_dot_dot, inside_root}

-- The first name below the root, if there is one, does not begin with two dots.
abbrev pub NoDots : List Bytes → Type 0
NoDots [] = Unit {0}
NoDots (e ∷ es) = starts_dot_dot e ≡ false

-- `p` is the root or stands below it.
pub record IsInside (root p : FilePath) : Type 0 where
  pub rest : List Bytes
  pub below : p ≡ record { absolute = true; elements = root.elements ++ rest }
  pub no_dots : NoDots rest

starts_dot_dot-join :
    (e : Bytes) (es : List Bytes) → IsName e → starts_dot_dot (join (e ∷ es)) ≡ starts_dot_dot e
unfolding starts_dot_dot join
starts_dot_dot-join [] es h = absurd (h.ne_nil refl)
starts_dot_dot-join (a ∷ []) [] h = refl
starts_dot_dot-join (a ∷ []) (f ∷ es) h = ground arith
starts_dot_dot-join (a ∷ (b ∷ e)) [] h = refl
starts_dot_dot-join (a ∷ (b ∷ e)) (f ∷ es) h = refl

-- The test on the way that is left behind the common names.
abbrev accepts : FilePath → Bool
accepts rel = not (is_empty_path rel || starts_dot_dot (string rel) || rel.absolute)

up_refused :
    (es : List Bytes) → accepts (record { absolute = false; elements = dot_dot ∷ es }) ≡ false
unfolding is_empty_path string join starts_dot_dot
up_refused [] = refl
up_refused (e ∷ es) = refl

accepts_named :
    (r : Bytes) (rest : List Bytes)
    → IsName r
    → (accepts (relative_rest (r ∷ rest) []) ≡ true) ↔ NoDots (r ∷ rest)
accepts_named r rest h =
    rw (relative_rest-down r rest h)
      (unfold is_empty_path string in rw (starts_dot_dot-join r rest h) (ground arith))

accepts_rest :
    (rest : List Bytes) → AllNormal rest → (accepts (relative_rest rest []) ≡ true) ↔ NoDots rest
accepts_rest [] h =
    unfold relative_rest is_empty_path string join starts_dot_dot in (λ _. tt, λ _. refl)
accepts_rest ([] ∷ []) h =
    unfold relative_rest count_down count_up is_empty_path string join starts_dot_dot in
    (λ _. refl, λ _. refl)
accepts_rest ((c ∷ r) ∷ []) h =
    accepts_named (c ∷ r) [] (record { ne_nil = λ q. cc; ne_dot = h.0; ne_dot_dot = h.1 })
accepts_rest (r ∷ (s ∷ rest)) h = accepts_named r (s ∷ rest) h.0

inside_root_rest :
    (root p : FilePath)
    → IsCanonical root
    → IsNormal p
    → inside_root root p
      ≡ accepts (
          relative_rest (mismatch p.elements root.elements).0 (mismatch p.elements root.elements).1)
unfolding inside_root lexically_relative
inside_root_rest root p hr hp = rw (hr.is_absolute, hp.is_absolute)

sound_rest :
    (root p : FilePath) (common xs ys : List Bytes)
    → IsCanonical root
    → IsNormal p
    → p.elements ≡ common ++ xs
    → root.elements ≡ common ++ ys
    → accepts (relative_rest xs ys) ≡ true
    → IsInside root p
sound_rest root p common xs [] hr hp ep er a = record {
  rest = xs;
  below = λ i. record {
    absolute = hp.is_absolute i;
    elements = (ep ∙ ap (λ c. c ++ xs) (sym (er ∙ append-nil common))) i;
  };
  no_dots = (accepts_rest xs (AllNormal-suffix common xs (rw ep at hp.all_normal))).0 a;
}
sound_rest root p common xs (y ∷ ys) hr hp ep er a =
    let named : All IsName (y ∷ ys) = All-suffix IsName common (y ∷ ys) (rw er at hr.all_names) in
    let (n, e) = relative_rest-up xs y ys named.0 named.1 in
    absurd (cc (sym (up_refused (ups n xs)) ∙ rw e at a))

-- Where the root is canonical and the path is absolute and in normal form, the test passes exactly for
-- the root and what stands below it under a first name that does not begin with two dots. The path may
-- end in a slash, which leaves an empty last name.
pub inside_root_iff :
    (root p : FilePath)
    → IsCanonical root
    → IsNormal p
    → (inside_root root p ≡ true) ↔ IsInside root p
inside_root_iff root p hr hp = (sound, complete)
  where
    sound : inside_root root p ≡ true → IsInside root p
    sound h =
        let (common, ep, er) = mismatch_splits p.elements root.elements in
        sound_rest root p common _ _ hr hp ep er (sym (inside_root_rest root p hr hp) ∙ h)

    complete : IsInside root p → inside_root root p ≡ true
    complete i =
        let ep : p.elements ≡ root.elements ++ i.rest = ap (λ (q : FilePath). q.elements) i.below in
        inside_root_rest root p hr hp
        ∙ ap (λ (m : List Bytes × List Bytes). accepts (relative_rest m.0 m.1))
            (ap (λ es. mismatch es root.elements) ep ∙ mismatch-append root.elements i.rest)
        ∙ (accepts_rest i.rest (AllNormal-suffix root.elements i.rest (rw ep at hp.all_normal))).1
            i.no_dots
