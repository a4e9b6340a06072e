-- ===== src/ClientSession/Steps.antt =====
-- What single steps of a session do to the bytes handed over and to the session.
use multi_client_media_strea.Base.{
  true, false, ◌≡◌, refl, ◌∙◌, ◌⊎◌, inl, inr, arith, Bool-cases, Bool-conflict, ℤ, pos, negsuc,
}
use multi_client_media_strea.ClientSession.{ClientSession, stop, load_active, with_buffer}
use multi_client_media_strea.Os.{Os}
use multi_client_media_strea.Os.Contract.{Untouched}
use multi_client_media_strea.Os.Monad.{M, Ensures}
use multi_client_media_strea.Socket
use multi_client_media_strea.Socket.{Socket, send_all, send_loop, send_next, send_string}

module _ {A : Type 0} (os : Os) (view : os.World → A) (same : Untouched os view) where
  shutdown-view : (z : ℤ) (w : os.World) → view (Socket.shutdown os (record { fd = z }) w) ≡ view w
  unfolding Socket.shutdown
  shutdown-view (pos fd) w = same.by_shutdown fd w
  shutdown-view (negsuc _) w = refl

  pub close-view : (z : ℤ) (w : os.World) → view (Socket.close os (record { fd = z }) w).1 ≡ view w
  unfolding Socket.close
  close-view (pos fd) w = same.by_close fd w
  close-view (negsuc _) w = refl

  pub stop-view : (s : ClientSession) (w : os.World) → view (stop os s w).1 ≡ view w
  unfolding stop
  stop-view s w =
      ground
        (arith, shutdown-view s.socket.fd w, close-view s.socket.fd (Socket.shutdown os s.socket w))

  -- A load of `is_active_` moves no byte.
  pub load_active-view :
      (s : ClientSession) (w : os.World) → Ensures (λ r. view r.1 ≡ view w) (load_active os s w)
  unfolding load_active
  load_active-view s w = elim (Bool-cases (os.stop_requested w).0) [
    | inl asked ↦
        rw (asked, load_active) (stop-view s (os.stop_requested w).1 ∙ same.by_stop_requested w)
    | inr quiet ↦ rw (quiet, load_active) (same.by_stop_requested w)
  ]

pub stop-is_active :
    (os : Os) (s : ClientSession) (w : os.World) → (stop os s w).0.is_active ≡ false
unfolding stop
stop-is_active os s w = ground arith

-- A session that is found active is found as it was left.
pub load_active-same :
    (os : Os) (s : ClientSession) (w : os.World)
    → Ensures (λ r. r.0.is_active ≡ true → r.0 ≡ s) (load_active os s w)
unfolding load_active
load_active-same os s w = elim (Bool-cases (os.stop_requested w).0) [
  | inl asked ↦
      rw (asked, load_active) (λ h. Bool-conflict _ h (stop-is_active os s (os.stop_requested w).1))
  | inr quiet ↦ rw (quiet, load_active) (λ _. refl)
]

-- What a load of `is_active_` finds in a session that was left active, and in one that was not.
pub load_active-cases :
    (os : Os) (s : ClientSession) (w : os.World)
    → Ensures
        (λ r.
          ((os.stop_requested w).0 ≡ true) × (r.0.is_active ≡ false)
          ⊎ ((os.stop_requested w).0 ≡ false) × (r.0 ≡ s))
        (load_active os s w)
unfolding load_active
load_active-cases os s w = elim (Bool-cases (os.stop_requested w).0) [
  | inl asked ↦ rw (asked, load_active) (inl (refl, stop-is_active os s (os.stop_requested w).1))
  | inr quiet ↦ rw (quiet, load_active) (inr (refl, refl))
]

pub load_active-over :
    (os : Os) (t : ClientSession) (w : os.World)
    → t.is_active ≡ false
    → Ensures (λ r. r.0.is_active ≡ false) (load_active os t w)
unfolding load_active
load_active-over os t w over = elim (Bool-cases (os.stop_requested w).0) [
  | inl asked ↦ rw (asked, load_active) (stop-is_active os t (os.stop_requested w).1)
  | inr quiet ↦ rw (quiet, load_active) over
]

-- A result that comes behind the allocation is one of what follows it.
pub with_buffer-Ensures :
    (os : Os) (P : ClientSession × os.World → Type 0) (s : ClientSession)
    (rest : M os.World ClientSession) (w : os.World)
    → Ensures P (rest w)
    → Ensures P (with_buffer os s rest w)
unfolding with_buffer
with_buffer-Ensures os P s rest w k = elim (Bool-cases (os.allocates s.chunk_size w)) [
  | inl there ↦ rw there k
  | inr missing ↦ rw missing tt
]

pub stop-chunk_size :
    (os : Os) (s : ClientSession) (w : os.World) → (stop os s w).0.chunk_size ≡ s.chunk_size
unfolding stop
stop-chunk_size os s w = ground arith
