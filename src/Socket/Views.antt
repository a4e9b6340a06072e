-- ===== src/Socket/Views.antt =====
-- What no call of `send` changes, or of `recv`, the loops of the socket do not change.
use multi_client_media_strea.Base.{ℕ, Bytes, ◌≡◌, refl, ◌∙◌, pos}
use multi_client_media_strea.Os.{Os}
use multi_client_media_strea.Os.Monad.{Ensures}
use multi_client_media_strea.Socket.{send_all, send_string, recv_all, recv_line}
use multi_client_media_strea.Socket.Keeps.{
  send_all-Keeps, send_string-Keeps, recv_all-Keeps, recv_line-Keeps,
}

module _ {A : Type 0} (os : Os) (view : os.World → A) (fd : ℕ) where
  abbrev SameView : {B : Type 0} → A → B × os.World → Type 0
  SameView before r = view r.1 ≡ before

  module _ (same : (chunk : Bytes) (w : os.World) → view (os.send fd chunk w).1 ≡ view w)
      (data' : Bytes) (fuel : ℕ) (w : os.World) where
    pub send_all-view :
        Ensures (SameView (view w)) (send_all os fuel (record { fd = pos fd }) data' w)
    send_all-view =
        send_all-Keeps os (λ v. view v ≡ view w) fd (λ b v e. same b v ∙ e) data' fuel w refl

    pub send_string-view :
        Ensures (SameView (view w)) (send_string os fuel (record { fd = pos fd }) data' w)
    send_string-view =
        send_string-Keeps os (λ v. view v ≡ view w) fd (λ b v e. same b v ∙ e) data' fuel w refl

  module _ (size : ℕ) (same : (n : ℕ) (w : os.World) → view (os.recv fd n w).1 ≡ view w) (fuel : ℕ)
      (w : os.World) where
    pub recv_all-view :
        Ensures (SameView (view w)) (recv_all os fuel (record { fd = pos fd }) size w)
    recv_all-view =
        recv_all-Keeps os (λ v. view v ≡ view w) fd (λ n v e. same n v ∙ e) size fuel w refl

    pub recv_line-view :
        Ensures (SameView (view w)) (recv_line os fuel (record { fd = pos fd }) size w)
    recv_line-view =
        recv_line-Keeps os (λ v. view v ≡ view w) fd (λ n v e. same n v ∙ e) size fuel w refl
