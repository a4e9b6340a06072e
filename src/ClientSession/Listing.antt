-- ===== src/ClientSession/Listing.antt =====
-- `handle_list`: what the client is sent.
use multi_client_media_strea.Base.{ℕ, ◌<◌, Bool, true, false, ◌≡◌, refl, some, Bytes, pos, length}
use multi_client_media_strea.ClientSession.{ClientSession, if_sent, handle_list}
use multi_client_media_strea.ClientSession.Get.{Answered, send_string-Ensures}
use multi_client_media_strea.FileManager.{FileManager, list_files}
use multi_client_media_strea.FileManager.Quiet.{list_files-view}
use multi_client_media_strea.Os.{Os}
use multi_client_media_strea.Os.Contract.{Wire}
use multi_client_media_strea.Os.Monad.{Ensures, Ensures-some, Ensures->>=}
use multi_client_media_strea.Protocol.{build_list_response}
use multi_client_media_strea.Socket.{send_string}
use multi_client_media_strea.Socket.Send.{Outcome}

-- A prefix of `reply` has been handed over. A session that is still active is as it was, and the
-- reply is whole; if it is not, the reply has been cut off.
pub record Listed (reply before after : Bytes) (s t : ClientSession) : Type 0 where
  pub answered : Answered reply before after
  pub if_active : t.is_active ≡ true → (answered.sent ≡ length reply) × (t ≡ s)
  pub if_over : t.is_active ≡ false → s.is_active ≡ true → answered.sent < length reply

module _ (os : Os) (wire : Wire os) (rounds fd : ℕ) (s : ClientSession)
    (connected : s.socket ≡ record { fd = pos fd }) (fm : FileManager) where
  open wire use {delivered}

  abbrev pub Lists : Bytes → os.World → ClientSession × os.World → Type 0
  Lists reply w r = Listed reply (delivered fd w) (delivered fd r.1) s r.0

  if_sent-Listed :
      (reply : Bytes) (w v : os.World) (all : Bool) (sent : ℕ)
      → Outcome reply (delivered fd w) (delivered fd v) all sent
      → Ensures (Lists reply w) (if_sent os s all (λ u. some (s, u)) v)
  unfolding if_sent
  if_sent-Listed reply w v true sent o = record {
    answered = record { sent = sent; within = o.within; added = o.added };
    if_active = λ _. (o.if_true refl, refl);
    if_over = λ h e. cc;
  }
  if_sent-Listed reply w v false sent o = record {
    answered = record { sent = sent; within = o.within; added = o.added };
    if_active = λ h. cc;
    if_over = λ h e. o.if_false refl;
  }

  pub handle_list-Ensures :
      (w : os.World)
      → Ensures
          (Lists (build_list_response (list_files os fm w).0) w)
          (handle_list os rounds fm s w)
  unfolding handle_list
  handle_list-Ensures w =
      let listed = list_files os fm w in
      let reply = build_list_response listed.0 in
      let quiet : delivered fd listed.1 ≡ delivered fd w =
        list_files-view os (delivered fd) (wire.delivered_by_files fd) fm w in
      Ensures->>= _ (Lists reply w) _ (send_string os rounds s.socket reply) listed.1
        (send_string-Ensures os wire rounds fd s connected reply listed.1)
        (λ all v h. if_sent-Listed reply w v all h.0 (rw quiet at h.1))

-- Where the system keeps the contract `Wire` and the socket has a descriptor, what `handle_list`
-- hands over is a prefix of the reply for what `list_files` returns when it is called, and nothing
-- else. If the session is still active, it is as it was and the reply is whole; if it was active and
-- is not any more, part of the reply is missing.
pub handle_list-Listed :
    (os : Os) (wire : Wire os) (rounds fd : ℕ) (s : ClientSession)
    (connected : s.socket ≡ record { fd = pos fd }) (fm : FileManager) (w v : os.World)
    (t : ClientSession)
    → handle_list os rounds fm s w ≡ some (t, v)
    → Listed
        (build_list_response (list_files os fm w).0)
        (wire.delivered fd w)
        (wire.delivered fd v)
        s
        t
handle_list-Listed os wire rounds fd s connected fm w v t =
    let reply = build_list_response (list_files os fm w).0 in
    Ensures-some (Lists os wire rounds fd s connected fm reply w) _ (t, v)
      (handle_list-Ensures os wire rounds fd s connected fm w)
