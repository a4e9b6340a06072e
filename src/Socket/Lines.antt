-- ===== src/Socket/Lines.antt =====
-- `recv_line` cuts a line off what the peer sent.
use multi_client_media_strea.Base.{
  ℕ, zero, suc, ◌≤◌, ◌<◌, Bool, true, false, not, [], ◌∷◌, ◌++◌, append_assoc, append-nil, ◌≡◌, ◌≢◌,
  refl, sym, ap, ◌∙◌, inl, inr, arith, some, Bytes, Bool-cases, pos, length, ltb, ◌==◌,
  length-append, All, All-append,
}
use multi_client_media_strea.Os.{Os, Reply, done, failed, eintr}
use multi_client_media_strea.Os.Contract.{Wire, Receives, Closes}
use multi_client_media_strea.Os.Monad.{M, Ensures, Ensures-some}
use multi_client_media_strea.Protocol.Trim.{is_empty}
use multi_client_media_strea.Socket.{strip_return, line_next, line_loop, recv_line}

abbrev pub NoNewline : Bytes → Type 0
NoNewline = All (λ c. c ≢ b'\n')

-- What `recv_line` makes of the bytes `taken` that it has read.
pub data Line (max_length : ℕ) (taken : Bytes) (shut : Bool) (flag : Bool) (line : Bytes)
    : Type 0 where
  whole :
      (body : Bytes)
      → taken ≡ body ++ b'\n' ∷ []
      → NoNewline body
      → length body < max_length
      → flag ≡ true
      → line ≡ strip_return body
      → Line max_length taken shut flag line
  at_end :
      NoNewline taken
      → length taken < max_length
      → shut ≡ true
      → flag ≡ not (is_empty taken)
      → line ≡ taken
      → Line max_length taken shut flag line
  broken :
      NoNewline taken
      → length taken < max_length
      → flag ≡ false
      → line ≡ taken
      → Line max_length taken shut flag line
  too_long :
      NoNewline taken
      → length taken ≡ max_length
      → flag ≡ false
      → line ≡ taken
      → Line max_length taken shut flag line

module _ (os : Os) (wire : Wire os) (fd max_length : ℕ) (start : Bytes) where
  open wire use {received, closed}

  abbrev pub LineResult : (Bool × Bytes) × os.World → Type 0
  LineResult r =
      (taken : Bytes) × (received fd r.1 ≡ start ++ taken)
      × Line max_length taken (closed fd r.1) r.0.0 r.0.1

  abbrev KeepsLine : (Bytes → M os.World (Bool × Bytes)) → Type 0
  KeepsLine again =
      (line : Bytes) (w : os.World)
      → NoNewline line
      → length line ≤ max_length
      → received fd w ≡ start ++ line
      → Ensures LineResult (again line w)

  line_next-Ensures :
      (again : Bytes → M os.World (Bool × Bytes)) (line before : Bytes) (shut : Bool)
      (reply : Reply Bytes) (w : os.World)
      → KeepsLine again
      → NoNewline line
      → length line < max_length
      → before ≡ start ++ line
      → Receives 1 before reply (received fd w)
      → Closes shut reply (closed fd w)
      → Ensures LineResult (line_next os again line reply w)
  unfolding line_next
  line_next-Ensures again line before shut (failed eintr) w k n h e law end =
      k line w n (omega arith) (law ∙ e)
  line_next-Ensures again line before shut (done (c ∷ (d ∷ s))) w k n h e law end =
      absurd (omega (arith, law.0))
  line_next-Ensures again line before shut (done (c ∷ [])) w k n h e law end =
      let added : received fd w ≡ start ++ (line ++ c ∷ []) =
        law.1 ∙ ap (λ s. s ++ c ∷ []) e ∙ append_assoc start line (c ∷ []) in
      elim (Bool-cases (c == b'\n')) [
        | inl newline ↦
            let is_newline : c ≡ b'\n' = ground arith in
            rw (newline, line_next)
              (
                line ++ c ∷ [],
                added,
                whole line (ap (λ b. line ++ b ∷ []) is_newline) n h refl refl,
              )
        | inr other_byte ↦
            rw (other_byte, line_next)
              (k (line ++ c ∷ []) w (All-append _ line (c ∷ []) n (ground arith, tt))
                (omega (arith, length-append line (c ∷ []))) added)
      ]
  line_next-Ensures again line before shut (done []) w k n h e law end =
      (line, law.1 ∙ append-nil before ∙ e, at_end n h end refl refl)
  line_next-Ensures again line before shut (failed _) w k n h e law end =
      (line, law ∙ e, broken n h refl refl)

  line_loop-Ensures : (fuel : ℕ) → KeepsLine (line_loop os fuel fd max_length)
  unfolding line_loop
  line_loop-Ensures zero line w n h e = tt
  line_loop-Ensures (suc fuel) line w n h e = elim (Bool-cases (ltb (length line) max_length)) [
    | inl more ↦
        rw (more, line_loop)
          (line_next-Ensures (line_loop os fuel fd max_length) line (received fd w) (closed fd w) _
            _ (line_loop-Ensures fuel) n (ground arith) e (wire.recv_law fd 1 w)
            (wire.recv_closed fd 1 w (omega arith)))
    | inr over ↦ rw (over, line_loop) (line, e, too_long n (ground arith) refl refl)
  ]

pub recv_line-Ensures :
    (os : Os) (wire : Wire os) (fuel fd max_length : ℕ) (w : os.World)
    → Ensures
        (LineResult os wire fd max_length (wire.received fd w))
        (recv_line os fuel (record { fd = pos fd }) max_length w)
unfolding recv_line
recv_line-Ensures os wire fuel fd max_length w =
    line_loop-Ensures os wire fd max_length (wire.received fd w) fuel [] w tt (omega arith)
      (sym (append-nil _))

-- Where the system keeps the contract `Wire`, a result of `recv_line` on a socket with a descriptor
-- is one of these: the bytes up to the first newline have been taken and the line is what stands
-- before it, less one \r at its end, with true; or bytes with no newline have been taken and are the
-- line, with true only if the peer closed the connection behind at least one, and with false if it did so
-- at once, the call failed, or they went on for `max_length` bytes. No byte behind the newline is taken.
pub recv_line-Line :
    (os : Os) (wire : Wire os) (fuel fd max_length : ℕ) (w w' : os.World) (flag : Bool)
    (line : Bytes)
    → recv_line os fuel (record { fd = pos fd }) max_length w ≡ some ((flag, line), w')
    → (taken : Bytes) × (wire.received fd w' ≡ wire.received fd w ++ taken)
      × Line max_length taken (wire.closed fd w') flag line
recv_line-Line os wire fuel fd max_length w w' flag line =
    Ensures-some (LineResult os wire fd max_length (wire.received fd w)) _ ((flag, line), w')
      (recv_line-Ensures os wire fuel fd max_length w)
