-- ===== src/Client/Asked.antt =====
-- The line that a session takes is the request that a client sent.
use multi_client_media_strea.Base.{
  ℕ, Bool, true, [], ◌∷◌, ◌++◌, append_assoc, append-nil, ◌≡◌, refl, sym, ap, ◌∙◌, arith, inl, inr,
  Bool-cases, Bytes, ◌==◌, some, pos,
}
use multi_client_media_strea.Client.Newlines.{append_cancel, first_newline, newline_inside}
use multi_client_media_strea.ClientSession.{ClientSession}
use multi_client_media_strea.Os.{Os}
use multi_client_media_strea.Os.Contract.{Wire}
use multi_client_media_strea.Os.Monad.{Ensures-some}
use multi_client_media_strea.Socket.Views.{recv_line-view}
use multi_client_media_strea.Protocol.Requests.{parse_request_pad}
use multi_client_media_strea.Protocol.Trim.{is_space}
use multi_client_media_strea.Protocol.Trim.Blanks.{IsBlank}
use multi_client_media_strea.Protocol.{parse_request}
use multi_client_media_strea.Socket.Lines.{
  Line, whole, at_end, broken, too_long, NoNewline, recv_line-Line,
}
use multi_client_media_strea.Socket.{strip_return, recv_line}

strip_return_splits : (s : Bytes) → (b : Bytes) × (s ≡ strip_return s ++ b) × IsBlank b
unfolding strip_return is_space
strip_return_splits [] = ([], refl, tt)
strip_return_splits (c ∷ []) = elim (Bool-cases (c == b'\r')) [
  | inl return_byte ↦ rw (return_byte, strip_return) (c ∷ [], refl, (ground arith, tt))
  | inr other_byte ↦ rw (other_byte, strip_return) ([], refl, tt)
]
strip_return_splits (c ∷ (d ∷ s)) =
    let (b, e, h) = strip_return_splits (d ∷ s) in (b, ap (◌∷◌ c) e, h)

parse_request-strip_return : (s : Bytes) → parse_request (strip_return s) ≡ parse_request s
parse_request-strip_return s =
    let (b, e, h) = strip_return_splits s in
    sym (ap parse_request e ∙ parse_request_pad [] (strip_return s) b tt h)

-- The bytes taken are a front of a text, a newline and more, and all of these if the connection was
-- found closed. Then the line is read as the text is.
Line-asked :
    (text : Bytes) (one_line : NoNewline text) (taken unheard q line : Bytes) (shut : Bool)
    → Line 4096 taken shut true line
    → taken ++ unheard ≡ text ++ b'\n' ∷ q
    → (shut ≡ true → unheard ≡ [])
    → parse_request line ≡ parse_request text
Line-asked text one_line taken unheard q line shut (whole body parts clear bound flag cut) e eof =
    let (same, rest) =
      first_newline body text unheard q clear one_line
        (sym (append_assoc body (b'\n' ∷ []) unheard) ∙ ap (λ b. b ++ unheard) (sym parts) ∙ e) in
    ap parse_request (cut ∙ ap strip_return same) ∙ parse_request-strip_return text
Line-asked text one_line taken unheard q line shut (at_end clear bound closed flag same) e eof =
    let all_taken = sym (append-nil taken) ∙ ap (◌++◌ taken) (sym (eof closed)) ∙ e in
    absurd (newline_inside text q (rw all_taken at clear))
Line-asked text one_line taken unheard q line shut (broken clear bound flag same) e eof =
    absurd (cc flag)
Line-asked text one_line taken unheard q line shut (too_long clear bound flag same) e eof =
    absurd (cc flag)

-- A turn of a session: `recv_line` has taken a line.
module _ (os : Os) (wire : Wire os) (rounds fd : ℕ) (s : ClientSession) (w u : os.World)
    (line : Bytes) (connected : s.socket ≡ record { fd = pos fd })
    (heard : recv_line os rounds s.socket 4096 w ≡ some ((true, line), u)) where
  pub heard-delivered : wire.delivered fd u ≡ wire.delivered fd w
  heard-delivered =
      Ensures-some (λ r. wire.delivered fd r.1 ≡ wire.delivered fd w) _ ((true, line), u)
        (recv_line-view os (wire.delivered fd) fd 4096 (λ n v. wire.recv_delivers fd fd n v) rounds
          w)
        (rw connected at heard)

  -- The client has handed over a text, a newline and more, of which the session has taken a front.
  pub heard-asked :
      (text : Bytes) (one_line : NoNewline text) (taken unheard q : Bytes)
      → wire.received fd u ≡ wire.received fd w ++ taken
      → taken ++ unheard ≡ text ++ b'\n' ∷ q
      → (wire.closed fd u ≡ true → unheard ≡ [])
      → parse_request line ≡ parse_request text
  heard-asked text one_line taken unheard q took e eof =
      let (taken', took', lined) =
        recv_line-Line os wire rounds fd 4096 w u true line (rw connected at heard) in
      let same : taken' ≡ taken = append_cancel (wire.received fd w) _ _ (sym took' ∙ took) in
      Line-asked text one_line taken unheard q line (wire.closed fd u) (rw same at lined) e eof
