-- ===== src/Rtsp/Request/Tests.antt =====
-- A request line, and a session's name that is too long.
use gaminganywhere.Base.{◌≡◌, arith, [], ◌∷◌, ◌++◌, none, take}
use gaminganywhere.Conf.Store.{codes}
use gaminganywhere.Rtsp.Request.{request_line, session_fix}
use gaminganywhere.Rtsp.Request.Words.{request_line-words, session_fix-overruns}

request_line-words_example :
    request_line (
      (b'P' ∷ codes "LAY")
      ++ 32 ∷ ((b'/' ∷ codes "desktop") ++ 32 ∷ ((b'R' ∷ codes "TSP/1.0") ++ 13 ∷ 10 ∷ [])))
    ≡ record {
      cmd = take 31 (b'P' ∷ codes "LAY");
      url = take 1023 (b'/' ∷ codes "desktop");
      protocol = take 31 (b'R' ∷ codes "TSP/1.0");
    }
request_line-words_example =
    request_line-words b'P' b'/' b'R' (codes "LAY") (codes "desktop") (codes "TSP/1.0") (10 ∷ [])
      (ground arith) (ground arith) (ground arith)

session_fix-overruns_example : session_fix 4 (0 ∷ 0 ∷ 0 ∷ 0 ∷ []) (codes "12345") ≡ none
session_fix-overruns_example =
    session_fix-overruns 4 (0 ∷ 0 ∷ 0 ∷ 0 ∷ []) (codes "12345") (omega arith) (ground arith)
      (omega arith)
