-- ===== src/Quizzes/History.antt =====
-- services/quiz_sessions.py: the calls that write the table. `inspect` and `find_start` only read.
use study_loop.Base.{Option, String, ℕ}
use study_loop.Json.{JsonText}
use study_loop.Quizzes.Create.{create_sync}
use study_loop.Quizzes.Row.{Codec, QuizRow, StoreSettings}
use study_loop.Quizzes.Store.{checkpoint_sync, claim_sync, complete_sync, release_sync}
use study_loop.Table.{Table}

-- The arguments are those that the methods hand to their transactions; `create` carries the status,
-- the payload, the immutable hash, the start key's hash and the request's hash.
pub data Call : Type 0 where
  create : String → String → JsonText → String → Option String → Option String → Call
  claim : String → String → String → Call
  checkpoint : String → String → String → JsonText → String → Call
  complete : String → String → String → JsonText → String → Call
  release : String → String → Call

unfoldable pub step : Codec → StoreSettings → Table QuizRow → ℕ × Call → Table QuizRow
step cx st t (now, create sid status payload hash key_hash request_hash) =
    (create_sync cx st sid status payload hash key_hash request_hash now t).1
step cx st t (now, claim sid operation token) = (claim_sync cx st sid operation token now t).1
step cx st t (now, checkpoint sid token status payload hash) =
    (checkpoint_sync cx st sid token status payload hash now t).1
step cx st t (now, complete sid token status payload hash) =
    (complete_sync cx st sid token status payload hash now t).1
step cx st t (now, release sid token) = (release_sync sid token now t).1
