-- ===== src/ClientSession/Complete.antt =====
-- A session as a whole: it comes to its end, and it has been a conversation.
use multi_client_media_strea.Base.{ℕ, ◌+◌, ◌<◌, ◌≤◌, true, ◌≡◌, refl, some, Bytes, pos, length}
use multi_client_media_strea.ClientSession
use multi_client_media_strea.ClientSession.{ClientSession}
use multi_client_media_strea.ClientSession.Conversation.{Conversation, Converses, run-Converses}
use multi_client_media_strea.ClientSession.Finish.{Over, run-Over}
use multi_client_media_strea.FileManager.{FileManager, get_file_size, list_files}
use multi_client_media_strea.Os.{Os}
use multi_client_media_strea.Os.Contract.{Wire, Reading, Patience, Dwindling}
use multi_client_media_strea.Os.Monad.{Ends, Ends-and}
use multi_client_media_strea.Protocol.{build_list_response}

-- Where the system keeps the contracts `Wire`, `Reading` and `Patience`, each of its calls returns, the
-- memory for a buffer of the chunk size can be had and the peers send finitely many bytes, `run` on a socket with a descriptor and with a chunk size that is not 0 returns whatever
-- they send. Then the session is not active, its socket is closed, and it has been a conversation.
-- The conditions on its rounds: the sizes of the files and the replies to LIST stay within a limit, the
-- rounds are more than the interruptions and bytes to come, that limit and 4096, together, and those of
-- its loop more than the interruptions and bytes to come.
pub run-Complete :
    (os : Os) (wire : Wire os) (reading : Reading os) (patience : Patience os)
    (dwindling : Dwindling os patience) (rounds fuel limit fd : ℕ) (fm : FileManager)
    (s : ClientSession) (w : os.World)
    → s.socket ≡ record { fd = pos fd }
    → 0 < s.chunk_size
    → ((v : os.World) → os.allocates s.chunk_size v ≡ true)
    → ((filename : Bytes) (v : os.World) (n : ℕ)
        → (get_file_size os fm filename v).0 ≡ some n
        → n ≤ limit)
    → ((v : os.World) → length (build_list_response (list_files os fm v).0) ≤ limit)
    → patience.pending w + limit + 4096 < rounds
    → patience.pending w < fuel
    → Ends
        (λ r. Over r × Conversation os wire reading fd (record s { is_active = true }) fm w r.1)
        (ClientSession.run os rounds fuel fm s w)
unfolding ClientSession.run
run-Complete os wire reading patience dwindling rounds fuel limit fd fm s w connected chunked roomy
      sizes listings enough f =
    Ends-and Over (Converses os wire reading fd (record s { is_active = true }) fm w) _
      (run-Over os reading patience dwindling rounds fuel limit fm s w roomy sizes listings enough
        f)
      (run-Converses os wire reading fd (record s { is_active = true }) fm rounds connected chunked
        refl fuel w)
