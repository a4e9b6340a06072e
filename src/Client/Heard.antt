-- ===== src/Client/Heard.antt =====
-- What a client has heard of a server's reply to GET, as texts.
use multi_client_media_strea.Base.{
  ℕ, zero, suc, ◌≤◌, ◌<◌, ◌^◌, Bool, true, [], ◌∷◌, ◌++◌, append_assoc, append-nil, ◌≡◌, refl, sym,
  ap, ◌∙◌, arith, Bytes, length, take, Bool-cases, Bool-conflict, inl, inr, ◌==◌,
}
use multi_client_media_strea.Client.{announces, read_header, starts_ok}
use multi_client_media_strea.Client.Fetch.{Fetched}
use multi_client_media_strea.Client.Newlines.{append_cancel, first_newline, newline_inside}
use multi_client_media_strea.Client.Reading.{read_header-build_get_header}
use multi_client_media_strea.FilePath.{FilePath}
use multi_client_media_strea.Os.{Os}
use multi_client_media_strea.Os.Contract.{Wire, Saving}
use multi_client_media_strea.Protocol.{build_get_header, build_error_response}
use multi_client_media_strea.Socket.{strip_return}
use multi_client_media_strea.Socket.Lines.{Line, whole, at_end, broken, too_long, NoNewline}

-- The front of a text that is the front of another.
prefix_of_take :
    (p more : Bytes) (k : ℕ) (file : Bytes)
    → p ++ more ≡ take k file
    → (p ≡ take (length p) file) × (length p ≤ length file)
prefix_of_take [] more k file e = (refl, omega arith)
prefix_of_take (c ∷ p) more zero file e = absurd (cc)
prefix_of_take (c ∷ p) more (suc k) [] e = absurd (cc)
prefix_of_take (c ∷ p) more (suc k) (d ∷ file) e =
    let (q, l) = prefix_of_take p more k file (cc) in ((cc), omega (arith, l))

-- What a line that announces a size begins with.
abbrev StartsWith : ℕ → Bytes → Type 0
StartsWith c [] = ⊥
StartsWith c (d ∷ s) = d ≡ c

announces-StartsWith :
    (line : Bytes) (n : ℕ) → read_header line ≡ announces n → StartsWith b'O' line
unfolding read_header starts_ok
announces-StartsWith [] n e = cc
announces-StartsWith (a ∷ []) n e = cc
announces-StartsWith (a ∷ (b ∷ s)) n e = ground arith

strip_return-StartsWith : (c : ℕ) (s : Bytes) → StartsWith c (strip_return s) → StartsWith c s
unfolding strip_return
strip_return-StartsWith c [] h = h
strip_return-StartsWith c (d ∷ []) h = elim (Bool-cases (d == b'\r')) [
  | inl e ↦ absurd (rw (e, strip_return) at h)
  | inr e ↦ rw (e, strip_return) at h
]
strip_return-StartsWith c (d ∷ (e ∷ s)) h = h

append-StartsWith : (c : ℕ) (s t : Bytes) → StartsWith c s → StartsWith c (s ++ t)
append-StartsWith c [] t h = absurd h
append-StartsWith c (d ∷ s) t h = h

-- A line of the client that announces a size, and the header of the server in front of the same
-- bytes, are the same line.
header_line :
    (n size : ℕ) (body rest tail : Bytes)
    → n < 2 ^ 64
    → NoNewline body
    → body ++ b'\n' ∷ rest ≡ build_get_header n ++ tail
    → read_header (strip_return body) ≡ announces size
    → (size ≡ n) × (rest ≡ tail)
header_line n size body rest tail b nn e r =
    let (line, built, none, kept, reads) = read_header-build_get_header n b in
    let joined : body ++ b'\n' ∷ rest ≡ line ++ b'\n' ∷ tail =
      e ∙ ap (λ x. x ++ tail) built ∙ append_assoc line (b'\n' ∷ []) tail in
    let (same, left) = first_newline body line rest tail nn none joined in
    let r' : read_header line ≡ announces size =
      ap read_header (sym kept ∙ ap strip_return (sym same)) ∙ r in
    (cc (sym r' ∙ reads), left)

-- The bytes that the client keeps are the front of the file.
pub kept_file :
    (n k size : ℕ) (body content more file : Bytes)
    → n < 2 ^ 64
    → NoNewline body
    → body ++ b'\n' ∷ (content ++ more) ≡ build_get_header n ++ take k file
    → read_header (strip_return body) ≡ announces size
    → length content ≡ size
    → (content ≡ take n file) × (n ≤ length file)
kept_file n k size body content more file b nn e r l =
    let (same, left) = header_line n size body (content ++ more) (take k file) b nn e r in
    let (front, fits) = prefix_of_take content more k file left in
    (front ∙ ap (λ j. take j file) (l ∙ same), omega (arith, fits))

take-StartsWith : (c k : ℕ) (s : Bytes) → StartsWith c (take k s) → StartsWith c s
take-StartsWith c zero s h = absurd h
take-StartsWith c (suc k) [] h = absurd h
take-StartsWith c (suc k) (d ∷ s) h = h

-- What the client has received, when its line came whole.
pub record Heard (part : Bytes) (size : ℕ) (content : Bytes) : Type 0 where
  pub body : Bytes
  pub one_line : NoNewline body
  pub parts : part ≡ body ++ b'\n' ∷ content
  pub announced : read_header (strip_return body) ≡ announces size
  pub measured : length content ≡ size

line-Heard :
    (taken line content a b : Bytes) (size : ℕ) (shut flag : Bool)
    → (shut ≡ true → content ≡ [])
    → flag ≡ true
    → Line 4096 taken shut flag line
    → taken ++ content ≡ a ++ b'\n' ∷ b
    → read_header line ≡ announces size
    → length content ≡ size
    → Heard (a ++ b'\n' ∷ b) size content
line-Heard taken line content a b size shut flag o t (whole body e nn l f s) p r m = record {
  body = body;
  one_line = nn;
  parts = sym p ∙ ap (λ x. x ++ content) e ∙ append_assoc body (b'\n' ∷ []) content;
  announced = ap read_header (sym s) ∙ r;
  measured = m;
}
line-Heard taken line content a b size shut flag o t (at_end nn l c f s) p r m =
    let all_taken = sym (append-nil taken) ∙ ap (◌++◌ taken) (sym (o c)) ∙ p in
    absurd (newline_inside a b (rw all_taken at nn))
line-Heard taken line content a b size shut flag o t (broken nn l f s) p r m =
    Bool-conflict flag t f
line-Heard taken line content a b size shut flag o t (too_long nn l f s) p r m =
    Bool-conflict flag t f

pub Fetched-Heard :
    (os : Os) (wire : Wire os) (saving : Saving os) (fd : ℕ) (filename : Bytes) (path : FilePath)
    (w v : os.World) (f : Fetched os wire saving fd filename path w v) (a b : Bytes)
    → wire.received fd v ≡ wire.received fd w ++ (a ++ b'\n' ∷ b)
    → Heard (a ++ b'\n' ∷ b) f.size f.content
Fetched-Heard os wire saving fd filename path w v f a b r =
    line-Heard f.taken f.line f.content a b f.size f.shut true f.silent refl f.header
      (append_cancel (wire.received fd w) _ _ (sym f.got ∙ r)) f.announced f.measured

-- No reply that is an error announces a size.
pub error_unheard :
    (part more content message : Bytes) (size k : ℕ)
    → Heard part size content
    → part ++ more ≡ take k (build_error_response message)
    → ⊥
unfolding build_error_response
error_unheard part more content message size k h e =
    let start = append-StartsWith b'O' (h.body ++ b'\n' ∷ content) more (
      append-StartsWith b'O' h.body (b'\n' ∷ content) (
        strip_return-StartsWith b'O' h.body
          (announces-StartsWith (strip_return h.body) size h.announced))) in
    let wrong : b'E' ≡ b'O' =
      take-StartsWith b'O' k (build_error_response message)
        (rw (sym (ap (λ x. x ++ more) h.parts) ∙ e) at start) in
    absurd (omega (arith, wrong))
