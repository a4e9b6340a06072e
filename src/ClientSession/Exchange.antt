-- ===== src/ClientSession/Exchange.antt =====
-- `respond`: the reply to each kind of request.
use multi_client_media_strea.Base.{ℕ, ◌<◌, true, ◌≡◌, refl, ◌∙◌, arith, inl, Bytes, codes, pos}
use multi_client_media_strea.ClientSession.{ClientSession, respond, deactivate}
use multi_client_media_strea.ClientSession.Get.{
  Answered, GetReply, empty_name, not_found, open_failed, served, cut, streamed, Refused,
  send_string-Ensures, reply_error-Ensures, handle_get-Ensures,
}
use multi_client_media_strea.ClientSession.Keeps.Run.{respond-HoldsOn}
use multi_client_media_strea.ClientSession.Listing.{Listed, Lists, handle_list-Ensures}
use multi_client_media_strea.FileManager.{FileManager, list_files}
use multi_client_media_strea.FileManager.Quiet.{unchanged}
use multi_client_media_strea.Os.{Os}
use multi_client_media_strea.Os.Contract.{Wire, Reading}
use multi_client_media_strea.Os.Keeping.{KeptBySession}
use multi_client_media_strea.Os.Monad.{Ensures, Ensures-and, Ensures-map, Ensures->>=}
use multi_client_media_strea.Protocol.{
  CommandType, list, get, quit, unknown, build_list_response, build_ok_response,
  build_error_response,
}
use multi_client_media_strea.Socket.{send_string}

module _ (os : Os) (wire : Wire os) (reading : Reading os) (fd : ℕ) (s : ClientSession)
    (fm : FileManager) where
  open wire use {delivered, received}

  -- The reply to a request, and the session behind it. An error reply to an unknown request may be cut
  -- off with the session as it was.
  pub data Exchange (w : os.World) : CommandType → Bytes → ClientSession × os.World → Type 0 where
    listed :
        {argument : Bytes} {t : ClientSession} {v : os.World}
        → Listed (build_list_response (list_files os fm w).0) (delivered fd w) (delivered fd v) s t
        → Exchange w list argument (t, v)
    got :
        {argument : Bytes} {t : ClientSession} {v : os.World}
        → GetReply os wire reading fd s fm argument w (t, v)
        → Exchange w get argument (t, v)
    bye :
        {argument : Bytes} {t : ClientSession} {v : os.World}
        → t ≡ deactivate s
        → Answered (build_ok_response (codes "BYE")) (delivered fd w) (delivered fd v)
        → Exchange w quit argument (t, v)
    invalid_request :
        {argument : Bytes} {t : ClientSession} {v : os.World}
        → t ≡ s
        → Answered
            (build_error_response (codes "INVALID_REQUEST"))
            (delivered fd w)
            (delivered fd v)
        → Exchange w unknown argument (t, v)

  GetReply-same :
      (argument : Bytes) (w : os.World) (t : ClientSession) (v : os.World)
      → GetReply os wire reading fd s fm argument w (t, v)
      → t.is_active ≡ true
      → t ≡ s
  GetReply-same argument w t v (empty_name _ e _) on = e
  GetReply-same argument w t v (not_found _ e _) on = e
  GetReply-same argument w t v (open_failed _ _ e _) on = e
  GetReply-same argument w t v (served _ _ (cut _ over)) on = cc
  GetReply-same argument w t v (served _ _ (streamed r)) on = (r.if_active on).1

  -- A session that is still active is as it was.
  pub Exchange-same :
      (w : os.World) (type : CommandType) (argument : Bytes) (t : ClientSession) (v : os.World)
      → Exchange w type argument (t, v)
      → t.is_active ≡ true
      → t ≡ s
  Exchange-same w list argument t v (listed r) on = (r.if_active on).1
  Exchange-same w get argument t v (got r) on = GetReply-same argument w t v r on
  Exchange-same w quit argument t v (bye e r) on = ground arith
  Exchange-same w unknown argument t v (invalid_request e r) on = e

  -- No request is taken while a reply is on its way.
  abbrev pub Unheard : os.World → os.World → Type 0
  Unheard w v = received fd v ≡ received fd w

  abbrev unheard_by_session : (w : os.World) → KeptBySession os (Unheard w) fd
  unheard_by_session w = record {
    by_send = λ b v i. wire.send_receives fd fd b v ∙ i;
    by_shutdown = λ v i. (wire.received_untouched fd).by_shutdown fd v ∙ i;
    by_close = λ v i. (wire.received_untouched fd).by_close fd v ∙ i;
    by_read = λ h n v i. wire.read_receives fd h n v ∙ i;
    by_stop_requested = λ v i. (wire.received_untouched fd).by_stop_requested v ∙ i;
  }

  module _ (rounds : ℕ) (connected : s.socket ≡ record { fd = pos fd }) (chunked : 0 < s.chunk_size)
      (w : os.World) where
    respond-reply :
        (type : CommandType) (argument : Bytes)
        → Ensures (Exchange w type argument) (respond os rounds fm s type argument w)
    unfolding respond
    respond-reply list argument =
        Ensures-map
          (Lists os wire rounds fd s connected fm (build_list_response (list_files os fm w).0) w)
          (Exchange w list argument) _ (λ r h. listed h)
          (handle_list-Ensures os wire rounds fd s connected fm w)
    respond-reply get argument =
        Ensures-map (GetReply os wire reading fd s fm argument w) (Exchange w get argument) _
          (λ r h. got h)
          (handle_get-Ensures os wire rounds fd s connected reading chunked fm argument w)
    respond-reply quit argument =
        Ensures->>= _ (Exchange w quit argument) _
          (send_string os rounds s.socket (build_ok_response (codes "BYE"))) w
          (send_string-Ensures os wire rounds fd s connected (build_ok_response (codes "BYE")) w)
          (λ all v h. bye refl (record { sent = h.0; within = h.1.within; added = h.1.added }))
    respond-reply unknown argument =
        Ensures-map (Refused os wire rounds fd s connected (codes "INVALID_REQUEST") w)
          (Exchange w unknown argument) _ (λ r h. invalid_request h.0 h.1)
          (reply_error-Ensures os wire rounds fd s connected (codes "INVALID_REQUEST") w)

    pub respond-Ensures :
        (type : CommandType) (argument : Bytes)
        → Ensures
            (λ r. Exchange w type argument r × Unheard w r.1)
            (respond os rounds fm s type argument w)
    respond-Ensures type argument = Ensures-and _ _ _ (respond-reply type argument) (
        Ensures-map _ (λ r. Unheard w r.1) _ (λ r h. h.1)
          (respond-HoldsOn os (Unheard w) fd (unheard_by_session w) (λ p. Unit)
            (unchanged os (received fd) (wire.received_by_files fd) (received fd w)) rounds fm tt
            (λ filename p v v' e. tt) s type argument w (inl connected) refl))
