-- ===== src/Protocol/Trim/Blanks.antt =====
-- Padding of blanks, and what `trim` leaves.
use mathlib.Core.List.{reverse, reverse-append, reverse-cons, reverse-reverse}
use multi_client_media_strea.Base.{
  ℕ, true, false, [], ◌∷◌, ◌++◌, append-nil, ◌≡◌, ◌≢◌, refl, sym, ap, ◌∙◌, inl, inr, Bytes,
  Bool-cases, All, All-append,
}
use multi_client_media_strea.Protocol.Trim.{is_space, skip_spaces, drop_trailing, trim, span_word}

abbrev pub IsBlank : Bytes → Type 0
IsBlank = All (λ c. is_space c ≡ true)

abbrev pub StartsSolid : Bytes → Type 0
StartsSolid [] = Unit {0}
StartsSolid (c ∷ s) = is_space c ≡ false

-- Neither the first byte nor the last one is a blank.
abbrev pub IsTrimmed : Bytes → Type 0
IsTrimmed s = StartsSolid s × StartsSolid (reverse s)

pub skip_spaces-append : (a s : Bytes) → IsBlank a → skip_spaces (a ++ s) ≡ skip_spaces s
unfolding skip_spaces
skip_spaces-append [] s h = refl
skip_spaces-append (c ∷ a) s h = rw h.0 (skip_spaces-append a s h.1)

pub skip_spaces-of-StartsSolid : (s : Bytes) → StartsSolid s → skip_spaces s ≡ s
unfolding skip_spaces
skip_spaces-of-StartsSolid [] h = refl
skip_spaces-of-StartsSolid (c ∷ s) h = rw h

IsBlank-reverse : (s : Bytes) → IsBlank s → IsBlank (reverse s)
IsBlank-reverse [] h = tt
IsBlank-reverse (c ∷ s) h =
    rw reverse-cons (All-append _ (reverse s) (c ∷ []) (IsBlank-reverse s h.1) (h.0, tt))

-- What `skip_spaces` removes is blank, and what it leaves starts with no blank.
pub skip_spaces_splits :
    (s : Bytes) → (a : Bytes) × (s ≡ a ++ skip_spaces s) × IsBlank a × StartsSolid (skip_spaces s)
unfolding skip_spaces
skip_spaces_splits [] = ([], refl, tt, tt)
skip_spaces_splits (c ∷ s) = elim (Bool-cases (is_space c)) [
  | inl h ↦ let (a, e, b, t) = skip_spaces_splits s in rw h (c ∷ a, ap (◌∷◌ c) e, (h, b), t)
  | inr h ↦ rw h ([], refl, tt, h)
]

StartsSolid-append : (s t : Bytes) → s ≢ [] → StartsSolid s → StartsSolid (s ++ t)
StartsSolid-append [] t ne h = absurd (ne refl)
StartsSolid-append (c ∷ s) t ne h = h

-- A solid end stays when something is put in front.
pub ends_solid : (s t : Bytes) → t ≢ [] → StartsSolid (reverse t) → StartsSolid (reverse (s ++ t))
ends_solid s t ne h = rw reverse-append (StartsSolid-append (reverse t) (reverse s) ne' h)
  where
    ne' : reverse t ≢ []
    ne' e = ne (sym (reverse-reverse t) ∙ ap reverse e)

drop_trailing_splits :
    (s : Bytes)
    → (b : Bytes) × (s ≡ drop_trailing s ++ b) × IsBlank b × StartsSolid (reverse (drop_trailing s))
unfolding drop_trailing
drop_trailing_splits s =
    let (a, e, h, t) = skip_spaces_splits (reverse s) in
    (
      reverse a,
      sym (reverse-reverse s) ∙ ap reverse e ∙ reverse-append a (skip_spaces (reverse s)),
      IsBlank-reverse a h,
      rw reverse-reverse t,
    )

StartsSolid-prefix : (s t : Bytes) → StartsSolid (s ++ t) → StartsSolid s
StartsSolid-prefix [] t h = tt
StartsSolid-prefix (c ∷ s) t h = h

-- `trim` cuts blanks off both ends, and off nothing else.
pub trim_splits :
    (s : Bytes)
    → (a : Bytes) × (b : Bytes) × (s ≡ a ++ (trim s ++ b))
      × IsBlank a
      × IsBlank b
      × IsTrimmed (trim s)
unfolding trim
trim_splits s =
    let (a, e, h, t) = skip_spaces_splits s in
    let (b, e', h', t') = drop_trailing_splits (skip_spaces s) in
    (a, b, e ∙ ap (◌++◌ a) e', h, h', (StartsSolid-prefix _ b (rw e' at t), t'))

drop_trailing-append : (s b : Bytes) → IsBlank b → drop_trailing (s ++ b) ≡ drop_trailing s
unfolding drop_trailing
drop_trailing-append s b h =
    rw (reverse-append s b, skip_spaces-append (reverse b) (reverse s) (IsBlank-reverse b h))

trim-append : (s b : Bytes) → IsBlank b → trim (s ++ b) ≡ trim s
unfolding trim
trim-append [] b h =
    ap drop_trailing (ap skip_spaces (sym (append-nil b)) ∙ skip_spaces-append b [] h)
trim-append (c ∷ s) b h = elim (Bool-cases (is_space c)) [
  | inl e ↦ rw e (trim-append s b h)
  | inr e ↦ rw e (drop_trailing-append (c ∷ s) b h)
]

-- Blanks around a text do not change what `trim` returns.
pub trim_pad : (a s b : Bytes) → IsBlank a → IsBlank b → trim (a ++ (s ++ b)) ≡ trim s
trim_pad a s b ha hb =
    unfold trim in ap drop_trailing (skip_spaces-append a (s ++ b) ha) ∙ trim-append s b hb

-- A text with solid ends is left alone.
pub trim-of-IsTrimmed : (s : Bytes) → IsTrimmed s → trim s ≡ s
unfolding trim drop_trailing
trim-of-IsTrimmed s h =
    rw (skip_spaces-of-StartsSolid s h.0, skip_spaces-of-StartsSolid (reverse s) h.1)
      (reverse-reverse s)

-- A word is not empty and holds no blank.
abbrev pub IsWord : Bytes → Type 0
IsWord w = (w ≢ []) × All (λ c. is_space c ≡ false) w

pub StartsSolid-IsWord : (w t : Bytes) → IsWord w → StartsSolid (w ++ t)
StartsSolid-IsWord [] t h = absurd (h.0 refl)
StartsSolid-IsWord (c ∷ w) t h = h.1.0

-- Reading a word stops at the blank behind it.
pub span_word-append :
    (w : Bytes) (c : ℕ) (rest : Bytes)
    → All (λ b. is_space b ≡ false) w
    → is_space c ≡ true
    → span_word (w ++ (c ∷ rest)) ≡ (w, c ∷ rest)
unfolding span_word
span_word-append [] c rest h e = rw e
span_word-append (b ∷ w) c rest h e = rw (span_word-append w c rest h.1 e, h.0)

pub span_word-no_space : (w : Bytes) → All (λ b. is_space b ≡ false) w → span_word w ≡ (w, [])
unfolding span_word
span_word-no_space [] h = refl
span_word-no_space (b ∷ w) h = rw (span_word-no_space w h.1, h.0)
