-- ===== src/Socket/Ending.antt =====
-- Enough rounds for the loops of the socket: each byte takes one at most, each interruption one.
use multi_client_media_strea.Base.{
  ℕ, zero, suc, ◌+◌, ◌-◌, ◌≤◌, ◌<◌, Bool, [], ◌∷◌, ◌++◌, inl, inr, arith, Bytes, Bool-cases, ℤ, pos,
  negsuc, length, drop, ltb, ◌==◌, length-append,
}
use multi_client_media_strea.Os.{Os, Reply, done, failed, eintr}
use multi_client_media_strea.Os.Contract.{Patience, Spends}
use multi_client_media_strea.Os.Monad.{M, Ends, Ends->>=}
use multi_client_media_strea.Socket.{
  Socket, send_next, send_loop, send_all, send_string, recv_next, recv_loop, recv_all, line_next,
  line_loop, recv_line,
}

module _ (os : Os) (patience : Patience os) where
  open patience use {pending}

  -- A call leaves no more interruptions to come than it found.
  abbrev pub Spent : {A : Type 0} → os.World → A × os.World → Type 0
  Spent w r = pending r.1 ≤ pending w

  module _ (fd : ℕ) (data' : Bytes) (start : os.World) where
    abbrev SendEnds : ℕ → (ℕ → M os.World (Bool × ℤ)) → Type 0
    SendEnds fuel again =
        (total : ℕ) (w : os.World)
        → pending w + (length data' - total) < fuel
        → pending w ≤ pending start
        → Ends (Spent start) (again total w)

    send_next-Ends :
        (fuel : ℕ) (again : ℕ → M os.World (Bool × ℤ)) (total left : ℕ) (reply : Reply ℕ)
        (w : os.World)
        → SendEnds fuel again
        → total < length data'
        → Spends reply left (pending w)
        → left + (length data' - total) < suc fuel
        → left ≤ pending start
        → Ends (Spent start) (send_next os again total reply w)
    unfolding send_next
    send_next-Ends fuel again total left (failed eintr) w k h s f b =
        k total w (omega arith) (omega arith)
    send_next-Ends fuel again total left (done (suc n)) w k h s f b =
        k (total + suc n) w (omega arith) (omega arith)
    send_next-Ends fuel again total left (done zero) w k h s f b = omega arith
    send_next-Ends fuel again total left (failed _) w k h s f b = omega arith

    send_loop-Ends : (fuel : ℕ) → SendEnds fuel (send_loop os fuel fd data')
    unfolding send_loop
    send_loop-Ends zero total w f b = absurd (omega arith)
    send_loop-Ends (suc fuel) total w f b = elim (Bool-cases (ltb total (length data'))) [
      | inl more ↦
          rw (more, send_loop)
            (send_next-Ends fuel (send_loop os fuel fd data') total (pending w) _ _
              (send_loop-Ends fuel) (ground arith) (patience.send_spends fd (drop total data') w) f
              b)
      | inr over ↦ rw (over, send_loop) b
    ]

  -- Where the system keeps the contract `Patience`, `send_all` returns, if its rounds are more
  -- than the bytes and the interruptions to come.
  pub send_all-Ends :
      (fuel : ℕ) (s : Socket) (data' : Bytes) (w : os.World)
      → pending w + length data' < fuel
      → Ends (Spent w) (send_all os fuel s data' w)
  unfolding send_all
  send_all-Ends fuel s data' w f = go s.fd
    where
      go : (z : ℤ) → Ends (Spent w) (send_all os fuel (record { fd = z }) data' w)
      go (negsuc _) = omega arith
      go (pos fd) =
          Ends->>= (Spent w) (Spent w) _ (send_loop os fuel fd data' 0) w
            (send_loop-Ends fd data' w fuel 0 w (omega arith) (omega arith)) (λ r v h. h)

  pub send_string-Ends :
      (fuel : ℕ) (s : Socket) (str : Bytes) (w : os.World)
      → pending w + length str < fuel
      → Ends (Spent w) (send_string os fuel s str w)
  unfolding send_string
  send_string-Ends fuel s str w f =
      Ends->>= (Spent w) (Spent w) _ (send_all os fuel s str) w (send_all-Ends fuel s str w f)
        (λ r v h. h)

  module _ (fd size : ℕ) (start : os.World) where
    abbrev RecvEnds : ℕ → (Bytes → M os.World (ℤ × Bytes)) → Type 0
    RecvEnds fuel again =
        (buffer : Bytes) (w : os.World)
        → pending w + (size - length buffer) < fuel
        → pending w ≤ pending start
        → Ends (Spent start) (again buffer w)

    recv_next-Ends :
        (fuel : ℕ) (again : Bytes → M os.World (ℤ × Bytes)) (buffer : Bytes) (left : ℕ)
        (reply : Reply Bytes) (w : os.World)
        → RecvEnds fuel again
        → length buffer < size
        → Spends reply left (pending w)
        → left + (size - length buffer) < suc fuel
        → left ≤ pending start
        → Ends (Spent start) (recv_next os again buffer reply w)
    unfolding recv_next
    recv_next-Ends fuel again buffer left (failed eintr) w k h s f b =
        k buffer w (omega arith) (omega arith)
    recv_next-Ends fuel again buffer left (done (c ∷ cs)) w k h s f b =
        k (buffer ++ (c ∷ cs)) w (omega (arith, length-append buffer (c ∷ cs))) (omega arith)
    recv_next-Ends fuel again buffer left (done []) w k h s f b = omega arith
    recv_next-Ends fuel again buffer left (failed _) w k h s f b = omega arith

    recv_loop-Ends : (fuel : ℕ) → RecvEnds fuel (recv_loop os fuel fd size)
    unfolding recv_loop
    recv_loop-Ends zero buffer w f b = absurd (omega arith)
    recv_loop-Ends (suc fuel) buffer w f b = elim (Bool-cases (ltb (length buffer) size)) [
      | inl more ↦
          rw (more, recv_loop)
            (recv_next-Ends fuel (recv_loop os fuel fd size) buffer (pending w) _ _
              (recv_loop-Ends fuel) (ground arith)
              (patience.recv_spends fd (size - length buffer) w) f b)
      | inr over ↦ rw (over, recv_loop) b
    ]

  -- Where the system keeps the contract `Patience`, `recv_all` returns, if its rounds are more
  -- than the bytes and the interruptions to come.
  pub recv_all-Ends :
      (fuel : ℕ) (s : Socket) (size : ℕ) (w : os.World)
      → pending w + size < fuel
      → Ends (Spent w) (recv_all os fuel s size w)
  unfolding recv_all
  recv_all-Ends fuel s size w f = go s.fd
    where
      go : (z : ℤ) → Ends (Spent w) (recv_all os fuel (record { fd = z }) size w)
      go (negsuc _) = omega arith
      go (pos fd) = recv_loop-Ends fd size w fuel [] w (omega arith) (omega arith)

  module _ (fd max_length : ℕ) (start : os.World) where
    abbrev LineEnds : ℕ → (Bytes → M os.World (Bool × Bytes)) → Type 0
    LineEnds fuel again =
        (line : Bytes) (w : os.World)
        → pending w + (max_length - length line) < fuel
        → pending w ≤ pending start
        → Ends (Spent start) (again line w)

    line_next-Ends :
        (fuel : ℕ) (again : Bytes → M os.World (Bool × Bytes)) (line : Bytes) (left : ℕ)
        (reply : Reply Bytes) (w : os.World)
        → LineEnds fuel again
        → length line < max_length
        → Spends reply left (pending w)
        → left + (max_length - length line) < suc fuel
        → left ≤ pending start
        → Ends (Spent start) (line_next os again line reply w)
    unfolding line_next
    line_next-Ends fuel again line left (failed eintr) w k h s f b =
        k line w (omega arith) (omega arith)
    line_next-Ends fuel again line left (done (c ∷ cs)) w k h s f b =
        elim (Bool-cases (c == b'\n')) [
          | inl e ↦ rw (e, line_next) (omega arith)
          | inr e ↦
              rw (e, line_next)
                (k (line ++ c ∷ []) w (omega (arith, length-append line (c ∷ []))) (omega arith))
        ]
    line_next-Ends fuel again line left (done []) w k h s f b = omega arith
    line_next-Ends fuel again line left (failed _) w k h s f b = omega arith

    line_loop-Ends : (fuel : ℕ) → LineEnds fuel (line_loop os fuel fd max_length)
    unfolding line_loop
    line_loop-Ends zero line w f b = absurd (omega arith)
    line_loop-Ends (suc fuel) line w f b = elim (Bool-cases (ltb (length line) max_length)) [
      | inl more ↦
          rw (more, line_loop)
            (line_next-Ends fuel (line_loop os fuel fd max_length) line (pending w) _ _
              (line_loop-Ends fuel) (ground arith) (patience.recv_spends fd 1 w) f b)
      | inr over ↦ rw (over, line_loop) b
    ]

  -- Where the system keeps the contract `Patience`, `recv_line` returns, if its rounds are more
  -- than the longest line and the interruptions to come.
  pub recv_line-Ends :
      (fuel : ℕ) (s : Socket) (max_length : ℕ) (w : os.World)
      → pending w + max_length < fuel
      → Ends (Spent w) (recv_line os fuel s max_length w)
  unfolding recv_line
  recv_line-Ends fuel s max_length w f = go s.fd
    where
      go : (z : ℤ) → Ends (Spent w) (recv_line os fuel (record { fd = z }) max_length w)
      go (negsuc _) = omega arith
      go (pos fd) = line_loop-Ends fd max_length w fuel [] w (omega arith) (omega arith)
