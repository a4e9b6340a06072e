-- ===== src/Protocol/Requests.antt =====
-- What `parse_request` makes of a line.
use multi_client_media_strea.Base.{
  ℕ, true, false, [], ◌∷◌, ◌++◌, map, append_assoc, append-nil, ◌≡◌, ◌≢◌, refl, sym, ap, ◌∙◌, inl,
  inr, arith, Bytes, codes, bytes_eq, Bool-cases, ◌==◌, All,
}
use multi_client_media_strea.Protocol.Trim.{is_space, is_empty, skip_spaces, drop_trailing, trim}
use multi_client_media_strea.Protocol.Trim.Blanks.{
  IsBlank, IsTrimmed, IsWord, skip_spaces-append, skip_spaces-of-StartsSolid, ends_solid,
  trim_splits, trim_pad, trim-of-IsTrimmed, StartsSolid-IsWord, span_word-append,
}
use multi_client_media_strea.Protocol.{
  Request, get, no_request, to_upper, getline, classify, parse_line, parse_request,
}

-- Blanks around a request do not change how it is read.
pub parse_request_pad :
    (a line b : Bytes)
    → IsBlank a
    → IsBlank b
    → parse_request (a ++ (line ++ b)) ≡ parse_request line
unfolding parse_request
parse_request_pad a line b ha hb = rw (trim_pad a line b ha hb)

-- A blank line is no request.
pub parse_request_blank : (a : Bytes) → IsBlank a → parse_request a ≡ no_request
parse_request_blank a h =
    ap parse_request (sym (append-nil a))
    ∙ parse_request_pad a [] [] h tt
    ∙ unfold parse_request trim skip_spaces drop_trailing is_empty in refl

abbrev pub HasNoNewline : Bytes → Type 0
HasNoNewline = All (λ c. c ≢ b'\n')

getline-of-HasNoNewline : (s : Bytes) → HasNoNewline s → getline s ≡ s
unfolding getline
getline-of-HasNoNewline [] h = refl
getline-of-HasNoNewline (c ∷ s) h = ground (arith, getline-of-HasNoNewline s h.1)

IsTrimmed-ne_empty : (s : Bytes) → s ≢ [] → is_empty s ≡ false
unfolding is_empty
IsTrimmed-ne_empty [] ne = absurd (ne refl)
IsTrimmed-ne_empty (c ∷ s) ne = refl

append-ne-nil : (s t : Bytes) → s ≢ [] → s ++ t ≢ []
append-ne-nil [] t ne e = ne refl
append-ne-nil (c ∷ s) t ne e = cc

-- A line of a word, blanks and an argument: the word is the command and the rest its stream.
parse_line-IsWord :
    (word : Bytes) (c : ℕ) (rest : Bytes)
    → IsWord word
    → is_space c ≡ true
    → parse_line (word ++ (c ∷ rest)) ≡ classify (map to_upper word) (c ∷ rest)
unfolding parse_line
parse_line-IsWord word c rest h e = rw (
  skip_spaces-of-StartsSolid (word ++ (c ∷ rest)) (StartsSolid-IsWord word (c ∷ rest) h),
  span_word-append word c rest h.1 e,
)

classify_get :
    (cmd rest name : Bytes)
    → cmd ≡ codes "GET"
    → skip_spaces rest ≡ name
    → IsTrimmed name
    → HasNoNewline name
    → classify cmd rest ≡ record { type = get; argument = name }
unfolding classify bytes_eq
classify_get cmd rest name e s t n =
    rw (e, s, getline-of-HasNoNewline name n, trim-of-IsTrimmed name t)

-- From the word GET in any case, blanks, and a file name, with blanks around it all,
-- `parse_request` reads the request for exactly that name, if the name is not empty, has no blank at
-- either end and no newline.
pub parse_request_get :
    (a word : Bytes) (c : ℕ) (gap name b : Bytes)
    → IsBlank a
    → IsWord word
    → map to_upper word ≡ codes "GET"
    → IsBlank (c ∷ gap)
    → name ≢ []
    → IsTrimmed name
    → HasNoNewline name
    → IsBlank b
    → parse_request (a ++ ((word ++ ((c ∷ gap) ++ name)) ++ b))
      ≡ record { type = get; argument = name }
parse_request_get a word c gap name b ha hw e hg ne t n hb =
    parse_request_pad a line b ha hb
    ∙ unfold parse_request in
      rw
        (
          trim-of-IsTrimmed line solid,
          IsTrimmed-ne_empty line (append-ne-nil word _ hw.0),
          parse_line-IsWord word c (gap ++ name) hw hg.0,
        )
        (classify_get (map to_upper word) _ name e
          (skip_spaces-append (c ∷ gap) name hg ∙ skip_spaces-of-StartsSolid name t.0) t n)
  where
    line : Bytes
    line = word ++ ((c ∷ gap) ++ name)

    solid : IsTrimmed line
    solid = (
      StartsSolid-IsWord word _ hw,
      rw (← append_assoc word (c ∷ gap) name) (ends_solid (word ++ (c ∷ gap)) name ne t.1),
    )

getline_splits : (s : Bytes) → (b : Bytes) × (s ≡ getline s ++ b) × HasNoNewline (getline s)
unfolding getline
getline_splits [] = ([], refl, tt)
getline_splits (c ∷ s) = elim (Bool-cases (c == b'\n')) [
  | inl e ↦ rw e (c ∷ s, refl, tt)
  | inr e ↦ let (b, q, h) = getline_splits s in rw e (b, ap (◌∷◌ c) q, (ground arith, h))
]

-- What `parse_request` accepts as a file name.
abbrev pub IsArgument : Bytes → Type 0
IsArgument name = IsTrimmed name × HasNoNewline name

HasNoNewline-middle : (a m b : Bytes) → HasNoNewline (a ++ (m ++ b)) → HasNoNewline m
HasNoNewline-middle [] [] b h = tt
HasNoNewline-middle [] (c ∷ m) b h = (h.0, HasNoNewline-middle [] m b h.1)
HasNoNewline-middle (c ∷ a) m b h = HasNoNewline-middle a m b h.1

trim-IsArgument : (s : Bytes) → HasNoNewline s → IsArgument (trim s)
trim-IsArgument s h =
    let (a, b, e, ha, hb, t) = trim_splits s in (t, HasNoNewline-middle a (trim s) b (rw e at h))

abbrev GetsArgument : Request → Type 0
GetsArgument r = r.type ≡ get → IsArgument r.argument

classify-GetsArgument : (cmd rest : Bytes) → GetsArgument (classify cmd rest)
unfolding classify
classify-GetsArgument cmd rest =
    ground
      (arith, trim-IsArgument (getline (skip_spaces rest)) (getline_splits (skip_spaces rest)).2)

-- If `parse_request` reads a GET request from a line, then its argument has no blank at either end and
-- no newline.
pub parse_request-IsArgument :
    (raw : Bytes) → (parse_request raw).type ≡ get → IsArgument (parse_request raw).argument
unfolding parse_request parse_line
parse_request-IsArgument raw = elim (Bool-cases (is_empty (trim raw))) [
  | inl e ↦ rw e (λ h. cc)
  | inr e ↦ rw e (classify-GetsArgument _ _)
]
