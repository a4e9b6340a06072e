-- ===== src/Client/Listing.antt =====
-- The client shows the listing that the server writes.
use multi_client_media_strea.Base.{
  ℕ, zero, suc, ◌<◌, ◌^◌, Bool, true, false, List, [], ◌∷◌, ◌++◌, append_assoc, append-nil, map,
  ◌≡◌, ◌≢◌, refl, sym, ap, ◌∙◌, arith, inl, inr, Bool-cases, Bool-conflict, Option, none, some,
  Bytes, pos, length, ltb, All, All-append,
}
use multi_client_media_strea.Client.{read_unsigned, is_digit}
use multi_client_media_strea.Client.Newlines.{first_newline, newline_inside}
use multi_client_media_strea.Client.Reading.{
  to_string-IsDigits, read_unsigned-to_string, no_byte, strip_return-same,
}
use multi_client_media_strea.Client.Rows.{Row, read_row, show_row, list_loop}
use multi_client_media_strea.Os.{Os, Reply, done, failed, eintr}
use multi_client_media_strea.Os.Contract.{Wire, Closes}
use multi_client_media_strea.Os.Monad.{M, Ensures, Ensures-and, Ensures->>=}
use multi_client_media_strea.Protocol.{MediaFileInfo, list_lines}
use multi_client_media_strea.Protocol.Decimal.{to_string}
use multi_client_media_strea.Protocol.Trim.{is_space, skip_spaces, is_empty}
use multi_client_media_strea.Protocol.Trim.Blanks.{
  IsWord, StartsSolid-IsWord, skip_spaces-of-StartsSolid, span_word-append,
}
use multi_client_media_strea.Socket.{Socket, recv_line, line_next, line_loop, strip_return}
use multi_client_media_strea.Socket.Lines.{
  Line, whole, at_end, broken, too_long, NoNewline, recv_line-Ensures,
}

-- A file that a row can show: its name is a word and its size has 64 bits.
abbrev pub IsListable : MediaFileInfo → Type 0
IsListable file = IsWord file.filename × (file.size_bytes < 2 ^ 64)

abbrev pub row_of : MediaFileInfo → Row
row_of file = record { name = file.filename; size = file.size_bytes }

-- The line for a file, without its newline.
abbrev line_of : MediaFileInfo → Bytes
line_of file = file.filename ++ (b' ' ∷ to_string file.size_bytes)

list_lines-cons :
    (file : MediaFileInfo) (files : List MediaFileInfo)
    → list_lines (file ∷ files) ≡ line_of file ++ b'\n' ∷ list_lines files
unfolding list_lines
list_lines-cons file files = sym (append_assoc file.filename (b' ' ∷ to_string file.size_bytes) _)

read_unsigned-space : (s : Bytes) → read_unsigned (b' ' ∷ s) ≡ read_unsigned s
unfolding read_unsigned skip_spaces is_space
read_unsigned-space s = refl

read_row-line_of : (file : MediaFileInfo) → IsListable file → read_row (line_of file) ≡ row_of file
unfolding read_row
read_row-line_of file (word, fits) =
    let blank : is_space b' ' ≡ true = unfold is_space in refl in
    rw
      (
        skip_spaces-of-StartsSolid (line_of file)
            (StartsSolid-IsWord file.filename (b' ' ∷ to_string file.size_bytes) word),
        span_word-append file.filename b' ' (to_string file.size_bytes) word.1 blank,
        read_unsigned-space (to_string file.size_bytes),
        read_unsigned-to_string file.size_bytes fits,
      )
      refl

solid_no :
    (c : ℕ) (s : Bytes) → is_space c ≡ true → All (λ b. is_space b ≡ false) s → All (λ d. d ≢ c) s
solid_no c [] e h = tt
solid_no c (d ∷ s) e h =
    ((λ q. Bool-conflict (is_space c) e (ap is_space (sym q) ∙ h.0)), solid_no c s e h.1)

-- What holds of each byte of a line.
line_of-All :
    (c : ℕ) (file : MediaFileInfo)
    → is_space c ≡ true
    → b' ' ≢ c
    → is_digit c ≡ false
    → IsListable file
    → All (λ d. d ≢ c) (line_of file)
line_of-All c file e b d h =
    All-append _ file.filename _ (solid_no c file.filename e h.0.1)
      (b, no_byte c _ d (to_string-IsDigits file.size_bytes))

line_of-NoNewline : (file : MediaFileInfo) → IsListable file → NoNewline (line_of file)
line_of-NoNewline file = line_of-All b'\n' file (unfold is_space in refl) (omega arith) refl

strip_return-line_of :
    (file : MediaFileInfo) → IsListable file → strip_return (line_of file) ≡ line_of file
strip_return-line_of file h =
    strip_return-same (line_of file)
      (line_of-All b'\r' file (unfold is_space in refl) (omega arith) refl h)

-- What a text of rows shows, if it is the text of a listing.
abbrev pub Shows : ℕ → Bytes → List Row → Type 0
Shows count t rows =
    (files : List MediaFileInfo)
    → t ≡ list_lines files
    → length files ≡ count
    → All IsListable files
    → rows ≡ map row_of files

no_rows : (files : List MediaFileInfo) → length files ≡ 0 → [] ≡ map row_of files
no_rows [] n = refl
no_rows (file ∷ files) n = absurd (omega arith)

module _ (os : Os) (wire : Wire os) (rounds fd : ℕ) where
  open wire use {received, closed}

  abbrev sock : Socket
  sock = record { fd = pos fd }

  -- The rows that were shown, and the bytes that they took.
  pub record Took (count : ℕ) (w : os.World) (r : (Bool × List Row) × os.World) : Type 0 where
    pub text : Bytes
    pub taken : received fd r.1 ≡ received fd w ++ text
    pub shows : r.0.0 ≡ true → Shows count text r.0.1
    pub silent : r.0.0 ≡ true → closed fd w ≡ true → text ≡ []

  -- A round, from what its line took and what the rounds behind it took.
  row-Shows :
      (count : ℕ) (taken text line : Bytes) (shut : Bool) (rows : List Row)
      → Line 4096 taken shut true line
      → (shut ≡ true → text ≡ [])
      → Shows count text rows
      → Shows (suc count) (taken ++ text) (read_row line ∷ rows)
  row-Shows count taken text line shut rows l o k [] e n h = absurd (omega (arith, n))
  row-Shows count taken text line shut rows (whole body q nn b f s) o k (file ∷ files) e n h =
      let joined : body ++ b'\n' ∷ text ≡ line_of file ++ b'\n' ∷ list_lines files =
        sym (append_assoc body (b'\n' ∷ []) text)
        ∙ ap (λ x. x ++ text) (sym q)
        ∙ e
        ∙ list_lines-cons file files in
      let (same, rest) =
        first_newline body (line_of file) text (list_lines files) nn (line_of-NoNewline file h.0)
          joined in
      let row : read_row line ≡ row_of file =
        ap read_row (s ∙ ap strip_return same ∙ strip_return-line_of file h.0)
        ∙ read_row-line_of file h.0 in
      rw (row, k files rest (omega (arith, n)) h.1) refl
  row-Shows count taken text line shut rows (at_end nn b c f s) o k (file ∷ files) e n h =
      let all_taken : taken ≡ line_of file ++ b'\n' ∷ list_lines files =
        sym (append-nil taken) ∙ ap (◌++◌ taken) (sym (o c)) ∙ e ∙ list_lines-cons file files in
      absurd (newline_inside (line_of file) (list_lines files) (rw all_taken at nn))
  row-Shows count taken text line shut rows (broken nn b f s) o k files e n h =
      Bool-conflict true refl f
  row-Shows count taken text line shut rows (too_long nn b f s) o k files e n h =
      Bool-conflict true refl f

  -- Once the peer has closed the connection and said so, there is no line any more.
  abbrev NoLine : (Bool × Bytes) × os.World → Type 0
  NoLine r = r.0.0 ≡ false

  line_next-NoLine :
      (again : Bytes → M os.World (Bool × Bytes)) (reply : Reply Bytes) (w : os.World)
      → (closed fd w ≡ true → Ensures NoLine (again [] w))
      → Closes true reply (closed fd w)
      → Ensures NoLine (line_next os again [] reply w)
  unfolding line_next is_empty
  line_next-NoLine again (failed eintr) w k c = k c
  line_next-NoLine again (done []) w k c = refl
  line_next-NoLine again (done (x ∷ s)) w k c = absurd (cc c)
  line_next-NoLine again (failed _) w k c = refl

  line_loop-NoLine :
      (max_length fuel : ℕ) (w : os.World)
      → closed fd w ≡ true
      → Ensures NoLine (line_loop os fuel fd max_length [] w)
  unfolding line_loop
  line_loop-NoLine max_length zero w c = tt
  line_loop-NoLine max_length (suc fuel) w c = elim (Bool-cases (ltb 0 max_length)) [
    | inl more ↦
        rw (more, line_loop)
          (line_next-NoLine (line_loop os fuel fd max_length) _ _
            (line_loop-NoLine max_length fuel _) (rw c at (wire.recv_closed fd 1 w (omega arith))))
    | inr over ↦ rw (over, line_loop) refl
  ]

  recv_line-NoLine :
      (w : os.World) → closed fd w ≡ true → Ensures NoLine (recv_line os rounds sock 4096 w)
  unfolding recv_line
  recv_line-NoLine w c = line_loop-NoLine 4096 rounds w c

  Ensures-if :
      {A : Type 0} (C : Type 0) (P : A → Type 0) (o : Option A)
      → (C → Ensures P o)
      → Ensures (λ a. C → P a) o
  Ensures-if C P none k = tt
  Ensures-if C P (some a) k = k

  show_row-Took :
      (count : ℕ) (reply : Bool × Bytes) (taken : Bytes) (w v : os.World)
      → received fd v ≡ received fd w ++ taken
      → Line 4096 taken (closed fd v) reply.0 reply.1
      → (closed fd w ≡ true → reply.0 ≡ false)
      → Ensures (Took count v) (list_loop os rounds sock count v)
      → Ensures
          (Took (suc count) w)
          (show_row os rounds sock (list_loop os rounds sock count) reply v)
  unfolding show_row
  show_row-Took count (false, line) taken w v e l c k = record {
    text = taken;
    taken = e;
    shows = λ h. cc;
    silent = λ h. cc;
  }
  show_row-Took count (true, line) taken w v e l c k =
      Ensures->>= (Took count v) (Took (suc count) w) _ (list_loop os rounds sock count) v k
        (λ shown u t. record {
          text = taken ++ t.text;
          taken = t.taken ∙ ap (λ x. x ++ t.text) e ∙ append_assoc (received fd w) taken t.text;
          shows = λ h.
              row-Shows count taken t.text line (closed fd v) shown.1 l (t.silent h) (t.shows h);
          silent = λ h q. Bool-conflict true refl (c q);
        })

  pub list_loop-Took :
      (count : ℕ) (w : os.World) → Ensures (Took count w) (list_loop os rounds sock count w)
  unfolding list_loop
  list_loop-Took zero w = record {
    text = [];
    taken = sym (append-nil _);
    shows = λ h files e n l. no_rows files n;
    silent = λ h c. refl;
  }
  list_loop-Took (suc count) w =
      Ensures->>= _ (Took (suc count) w) _ (recv_line os rounds sock 4096) w
        (Ensures-and _ _ _ (recv_line-Ensures os wire rounds fd 4096 w)
          (Ensures-if (closed fd w ≡ true) NoLine _ (recv_line-NoLine w)))
        (λ reply v h. show_row-Took count reply h.0.0 w v h.0.1 h.0.2 h.1 (list_loop-Took count v))
