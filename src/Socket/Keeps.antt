-- ===== src/Socket/Keeps.antt =====
-- A property of the world that `send` keeps, or `recv`, the loops of the socket keep.
use multi_client_media_strea.Base.{
  ℕ, zero, suc, ◌+◌, ◌-◌, Bool, [], ◌∷◌, ◌++◌, inl, inr, Bytes, Bool-cases, ℤ, pos, length, drop,
  ltb, ◌==◌,
}
use multi_client_media_strea.Os.{Os, Reply, done, failed, eintr}
use multi_client_media_strea.Os.Monad.{M, Ensures, Ensures->>=}
use multi_client_media_strea.Socket.{
  send_next, send_loop, send_all, send_string, recv_next, recv_loop, recv_all, line_next, line_loop,
  recv_line,
}

module _ (os : Os) (I : os.World → Type 0) (fd : ℕ) where
  -- It holds of the world behind a computation.
  abbrev pub Keeps : {A : Type 0} → A × os.World → Type 0
  Keeps r = I r.1

  module _ (by_send : (chunk : Bytes) (w : os.World) → I w → I (os.send fd chunk w).1)
      (data' : Bytes) where
    send_next-Keeps :
        (again : ℕ → M os.World (Bool × ℤ)) (total : ℕ) (reply : Reply ℕ) (w : os.World)
        → ((t : ℕ) → Ensures Keeps (again t w))
        → I w
        → Ensures Keeps (send_next os again total reply w)
    unfolding send_next
    send_next-Keeps again total (failed eintr) w k i = k total
    send_next-Keeps again total (done (suc n)) w k i = k (total + suc n)
    send_next-Keeps again total (done zero) w k i = i
    send_next-Keeps again total (failed _) w k i = i

    send_loop-Keeps :
        (fuel total : ℕ) (w : os.World) → I w → Ensures Keeps (send_loop os fuel fd data' total w)
    unfolding send_loop
    send_loop-Keeps zero total w i = tt
    send_loop-Keeps (suc fuel) total w i = elim (Bool-cases (ltb total (length data'))) [
      | inl more ↦
          let i' = by_send (drop total data') w i in
          rw (more, send_loop)
            (send_next-Keeps (send_loop os fuel fd data') total _ _
              (λ t. send_loop-Keeps fuel t _ i') i')
      | inr over ↦ rw (over, send_loop) i
    ]

    pub send_all-Keeps :
        (fuel : ℕ) (w : os.World)
        → I w
        → Ensures Keeps (send_all os fuel (record { fd = pos fd }) data' w)
    unfolding send_all
    send_all-Keeps fuel w i =
        Ensures->>= Keeps Keeps _ (send_loop os fuel fd data' 0) w (send_loop-Keeps fuel 0 w i)
          (λ r v h. h)

    pub send_string-Keeps :
        (fuel : ℕ) (w : os.World)
        → I w
        → Ensures Keeps (send_string os fuel (record { fd = pos fd }) data' w)
    unfolding send_string
    send_string-Keeps fuel w i =
        Ensures->>= Keeps Keeps _ (send_all os fuel (record { fd = pos fd }) data') w
          (send_all-Keeps fuel w i) (λ r v h. h)

  module _ (by_recv : (n : ℕ) (w : os.World) → I w → I (os.recv fd n w).1) (size : ℕ) where
    recv_next-Keeps :
        (again : Bytes → M os.World (ℤ × Bytes)) (buffer : Bytes) (reply : Reply Bytes)
        (w : os.World)
        → ((b : Bytes) → Ensures Keeps (again b w))
        → I w
        → Ensures Keeps (recv_next os again buffer reply w)
    unfolding recv_next
    recv_next-Keeps again buffer (failed eintr) w k i = k buffer
    recv_next-Keeps again buffer (done (c ∷ cs)) w k i = k (buffer ++ (c ∷ cs))
    recv_next-Keeps again buffer (done []) w k i = i
    recv_next-Keeps again buffer (failed _) w k i = i

    recv_loop-Keeps :
        (fuel : ℕ) (buffer : Bytes) (w : os.World)
        → I w
        → Ensures Keeps (recv_loop os fuel fd size buffer w)
    unfolding recv_loop
    recv_loop-Keeps zero buffer w i = tt
    recv_loop-Keeps (suc fuel) buffer w i = elim (Bool-cases (ltb (length buffer) size)) [
      | inl more ↦
          let i' = by_recv (size - length buffer) w i in
          rw (more, recv_loop)
            (recv_next-Keeps (recv_loop os fuel fd size) buffer _ _
              (λ b. recv_loop-Keeps fuel b _ i') i')
      | inr over ↦ rw (over, recv_loop) i
    ]

    pub recv_all-Keeps :
        (fuel : ℕ) (w : os.World)
        → I w
        → Ensures Keeps (recv_all os fuel (record { fd = pos fd }) size w)
    unfolding recv_all
    recv_all-Keeps fuel w i = recv_loop-Keeps fuel [] w i

    line_next-Keeps :
        (again : Bytes → M os.World (Bool × Bytes)) (line : Bytes) (reply : Reply Bytes)
        (w : os.World)
        → ((b : Bytes) → Ensures Keeps (again b w))
        → I w
        → Ensures Keeps (line_next os again line reply w)
    unfolding line_next
    line_next-Keeps again line (failed eintr) w k i = k line
    line_next-Keeps again line (done []) w k i = i
    line_next-Keeps again line (failed _) w k i = i
    line_next-Keeps again line (done (c ∷ cs)) w k i = elim (Bool-cases (c == b'\n')) [
      | inl newline ↦ rw (newline, line_next) i
      | inr other_byte ↦ rw (other_byte, line_next) (k (line ++ c ∷ []))
    ]

    line_loop-Keeps :
        (fuel : ℕ) (line : Bytes) (w : os.World)
        → I w
        → Ensures Keeps (line_loop os fuel fd size line w)
    unfolding line_loop
    line_loop-Keeps zero line w i = tt
    line_loop-Keeps (suc fuel) line w i = elim (Bool-cases (ltb (length line) size)) [
      | inl more ↦
          let i' = by_recv 1 w i in
          rw (more, line_loop)
            (line_next-Keeps (line_loop os fuel fd size) line (os.recv fd 1 w).0 _
              (λ b. line_loop-Keeps fuel b _ i') i')
      | inr over ↦ rw (over, line_loop) i
    ]

    pub recv_line-Keeps :
        (fuel : ℕ) (w : os.World)
        → I w
        → Ensures Keeps (recv_line os fuel (record { fd = pos fd }) size w)
    unfolding recv_line
    recv_line-Keeps fuel w i = line_loop-Keeps fuel [] w i
