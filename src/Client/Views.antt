-- ===== src/Client/Views.antt =====
-- What the loop of `do_get` leaves alone.
use multi_client_media_strea.Base.{
  ℕ, zero, suc, ◌+◌, ◌-◌, Bool, ◌≡◌, refl, ◌∙◌, inl, inr, Bool-cases, Bytes, ℤ, pos, negsuc, ltb,
  min,
}
use multi_client_media_strea.Client.{client_chunk_size, save_chunk, receive_loop}
use multi_client_media_strea.Os.{Os}
use multi_client_media_strea.Os.Monad.{M, Ensures, Ensures->>=}
use multi_client_media_strea.Socket.{Socket, recv_all}
use multi_client_media_strea.Socket.Views.{recv_all-view}

-- What neither `recv` nor `write` changes, the loop does not change.
module _ {A : Type 0} (os : Os) (view : os.World → A) (rounds fd out file_size : ℕ)
    (by_recv : (n : ℕ) (w : os.World) → view (os.recv fd n w).1 ≡ view w)
    (by_write : (b : Bytes) (w : os.World) → view (os.write out b w) ≡ view w) where
  abbrev SameView : {B : Type 0} → A → B × os.World → Type 0
  SameView before r = view r.1 ≡ before

  save_chunk-view :
      (before : A) (again : ℕ → M os.World Bool) (to_recv total : ℕ) (code : ℤ) (buffer : Bytes)
      (w : os.World)
      → ((t : ℕ) (u : os.World) → view u ≡ before → Ensures (SameView before) (again t u))
      → view w ≡ before
      → Ensures (SameView before) (save_chunk os rounds again out to_recv total (code, buffer) w)
  unfolding save_chunk
  save_chunk-view before again to_recv total (pos zero) buffer w k e = e
  save_chunk-view before again to_recv total (negsuc _) buffer w k e = e
  save_chunk-view before again to_recv total (pos (suc _)) buffer w k e =
      k (total + to_recv) (os.write out buffer w) (by_write buffer w ∙ e)

  receive_loop-within :
      (before : A) (fuel total : ℕ) (w : os.World)
      → view w ≡ before
      → Ensures
          (SameView before)
          (receive_loop os rounds fuel (record { fd = pos fd }) out file_size total w)
  unfolding receive_loop
  receive_loop-within before zero total w e = tt
  receive_loop-within before (suc fuel) total w e = elim (Bool-cases (ltb total file_size)) [
    | inl more ↦
        let to_recv = min client_chunk_size (file_size - total) in
        let sock : Socket = record { fd = pos fd } in
        rw (more, receive_loop)
          (Ensures->>= _ (SameView before) _ (recv_all os rounds sock to_recv) w
            (recv_all-view os view fd to_recv by_recv rounds w)
            (λ r v h.
              save_chunk-view before (receive_loop os rounds fuel sock out file_size) to_recv total
                r.0 r.1 v (λ t u q. receive_loop-within before fuel t u q) (h ∙ e)))
    | inr over ↦ rw (over, receive_loop) e
  ]

  pub receive_loop-view :
      (fuel : ℕ) (w : os.World)
      → Ensures
          (SameView (view w))
          (receive_loop os rounds fuel (record { fd = pos fd }) out file_size 0 w)
  receive_loop-view fuel w = receive_loop-within (view w) fuel 0 w refl
