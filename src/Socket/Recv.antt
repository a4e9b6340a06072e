-- ===== src/Socket/Recv.antt =====
-- `recv_all` fills the buffer from what the peer sent.
use multi_client_media_strea.Base.{
  ℕ, zero, suc, ◌-◌, ◌≤◌, ◌<◌, Bool, true, [], ◌∷◌, ◌++◌, append_assoc, append-nil, ◌≡◌, ◌≢◌, refl,
  sym, ap, ◌∙◌, ◌⊎◌, inl, inr, arith, some, Bytes, Bool-cases, Bool-conflict, ℤ, pos, negsuc,
  length, ltb, length-append,
}
use multi_client_media_strea.Os.{Os, Reply, done, failed, eintr}
use multi_client_media_strea.Os.Contract.{Wire, Receives, Closes}
use multi_client_media_strea.Os.Monad.{M, Ensures, Ensures-some}
use multi_client_media_strea.Socket.{recv_next, recv_loop, recv_all}

-- What a call of `recv_all` leaves: the buffer holds what has been received, in order; the code 1
-- says that it is full, and 0 and -1 that it is not. The code 0 says that the peer has closed the
-- connection, and after that nothing is received.
pub record Filled (size : ℕ) (before after : Bytes) (shut shut' : Bool) (buffer : Bytes) (code : ℤ)
    : Type 0 where
  pub added : after ≡ before ++ buffer
  pub within : length buffer ≤ size
  pub full : code ≡ pos 1 → length buffer ≡ size
  pub short : code ≢ pos 1 → length buffer < size
  pub codes : (code ≡ pos 1) ⊎ ((code ≡ pos 0) ⊎ (code ≡ negsuc 0))
  pub ended : code ≡ pos 0 → shut' ≡ true
  pub silent : shut ≡ true → (buffer ≡ []) × (shut' ≡ true)

module _ (os : Os) (wire : Wire os) (fd size : ℕ) (start : Bytes) (shut : Bool) where
  open wire use {received, closed}

  abbrev pub Result : (ℤ × Bytes) × os.World → Type 0
  Result r = Filled size start (received fd r.1) shut (closed fd r.1) r.0.1 r.0.0

  -- Nothing comes from a peer that had closed the connection at the start.
  abbrev Silent : Bytes → Bool → Type 0
  Silent buffer shut' = shut ≡ true → (buffer ≡ []) × (shut' ≡ true)

  abbrev Keeps : (Bytes → M os.World (ℤ × Bytes)) → Type 0
  Keeps again =
      (buffer : Bytes) (w : os.World)
      → length buffer ≤ size
      → received fd w ≡ start ++ buffer
      → Silent buffer (closed fd w)
      → Ensures Result (again buffer w)

  stopped :
      (buffer after : Bytes) (shut' : Bool) (code : ℤ)
      → (code ≡ pos 0) ⊎ (code ≡ negsuc 0)
      → length buffer < size
      → after ≡ start ++ buffer
      → (code ≡ pos 0 → shut' ≡ true)
      → Silent buffer shut'
      → Filled size start after shut shut' buffer code
  stopped buffer after shut' code c h e d q = record {
    added = e;
    within = omega arith;
    full = λ x. ground arith;
    short = λ _. h;
    codes = inr c;
    ended = d;
    silent = q;
  }

  recv_next-Ensures :
      (again : Bytes → M os.World (ℤ × Bytes)) (buffer before : Bytes) (shut₁ : Bool)
      (reply : Reply Bytes) (w : os.World)
      → Keeps again
      → length buffer < size
      → before ≡ start ++ buffer
      → Silent buffer shut₁
      → Receives (size - length buffer) before reply (received fd w)
      → Closes shut₁ reply (closed fd w)
      → Ensures Result (recv_next os again buffer reply w)
  unfolding recv_next
  recv_next-Ensures again buffer before shut₁ (failed eintr) w k h e q law end =
      k buffer w (omega arith) (law ∙ e) (λ x. ((q x).0, end ∙ (q x).1))
  recv_next-Ensures again buffer before shut₁ (done (c ∷ cs)) w k h e q law end =
      k (buffer ++ (c ∷ cs)) w (omega (arith, law.0, length-append buffer (c ∷ cs)))
        (law.1 ∙ ap (λ s. s ++ (c ∷ cs)) e ∙ append_assoc start buffer (c ∷ cs))
        (λ x. Bool-conflict shut₁ (q x).1 end)
  recv_next-Ensures again buffer before shut₁ (done []) w k h e q law end =
      stopped buffer _ _ (pos 0) (inl refl) h (law.1 ∙ append-nil before ∙ e) (λ _. end)
        (λ x. ((q x).0, end))
  recv_next-Ensures again buffer before shut₁ (failed _) w k h e q law end =
      stopped buffer _ _ (negsuc 0) (inr refl) h (law ∙ e) (λ x. cc) (λ x. ((q x).0, end ∙ (q x).1))

  recv_loop-Ensures : (fuel : ℕ) → Keeps (recv_loop os fuel fd size)
  unfolding recv_loop
  recv_loop-Ensures zero buffer w h e q = tt
  recv_loop-Ensures (suc fuel) buffer w h e q = elim (Bool-cases (ltb (length buffer) size)) [
    | inl more ↦
        let room = size - length buffer in
        rw (more, recv_loop)
          (recv_next-Ensures (recv_loop os fuel fd size) buffer (received fd w) (closed fd w) _ _
            (recv_loop-Ensures fuel) (ground arith) e q (wire.recv_law fd room w)
            (wire.recv_closed fd room w (ground arith)))
    | inr over ↦
        rw (over, recv_loop)
          (record {
            added = e;
            within = h;
            full = λ _. ground arith;
            short = λ x. absurd (x refl);
            codes = inl refl;
            ended = λ x. cc;
            silent = q;
          })
  ]

pub recv_all-Ensures :
    (os : Os) (wire : Wire os) (fuel fd size : ℕ) (w : os.World)
    → Ensures
        (Result os wire fd size (wire.received fd w) (wire.closed fd w))
        (recv_all os fuel (record { fd = pos fd }) size w)
unfolding recv_all
recv_all-Ensures os wire fuel fd size w =
    recv_loop-Ensures os wire fd size (wire.received fd w) (wire.closed fd w) fuel [] w
      (omega arith) (sym (append-nil _)) (λ x. (refl, x))

-- Where the system keeps the contract `Wire`, on a socket with a descriptor a result of `recv_all` is
-- 1 with the buffer filled, 0 with less if the peer has closed the connection, or -1 with less; in
-- each case the buffer holds exactly the bytes taken from the peer, in order. If the peer had closed
-- the connection before, there are none.
pub recv_all-Filled :
    (os : Os) (wire : Wire os) (fuel fd size : ℕ) (w w' : os.World) (code : ℤ) (buffer : Bytes)
    → recv_all os fuel (record { fd = pos fd }) size w ≡ some ((code, buffer), w')
    → Filled size
        (wire.received fd w)
        (wire.received fd w')
        (wire.closed fd w)
        (wire.closed fd w')
        buffer
        code
recv_all-Filled os wire fuel fd size w w' code buffer =
    Ensures-some (Result os wire fd size (wire.received fd w) (wire.closed fd w)) _
      ((code, buffer), w') (recv_all-Ensures os wire fuel fd size w)
