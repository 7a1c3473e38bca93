-- ===== src/Encoder/Sending.antt =====
-- Sending an encoded packet to the playing clients, of ga/core/encoder-common.cpp. What avformat
-- and the socket answer for a client are parameters.
use gaminganywhere.Base.{
  ℕ, ◌≡◌, refl, arith, if◌then◌else◌, List, [], ◌∷◌, ◌++◌, Option, none, some, Bool, true, false,
  ◌&&◌,
}

-- what the sending reads of a `RTSPContext`, for the channel of the packet
pub record Receiver : Type 0 where
  pub client : ℕ
  pub is_playing : Bool
  pub is_open : Bool
  pub over_tcp : Bool

-- What is done for a client: `ffio_open_dyn_packet_buf`, `av_write_frame` with the packet's pts,
-- and `rtsp_write_bindata` of what the buffer holds.
pub data Effect : Type 0 where
  opened : ℕ → Effect
  written : ℕ → Option ℕ → Effect
  pushed : ℕ → Effect

pub record Answers : Type 0 where
  pub opens : ℕ → Bool
  pub writes : ℕ → Bool
  pub pushes : ℕ → Bool
  pub rescale : ℕ → ℕ → ℕ

-- The pts of the packet after a call: `encoderPts` in the time base of the stream, where there is
-- one.
unfoldable pub stamp : Answers → ℕ → Option ℕ → Option ℕ → Option ℕ
stamp env c none pts = pts
stamp env c (some t) pts = some (env.rescale c t)

-- `encoder_send_packet`: whether it succeeds, the pts that the packet is left with, what is done.
unfoldable pub send_packet :
    Answers → Receiver → Option ℕ → Option ℕ → Bool × Option ℕ × List Effect
unfolding stamp
send_packet env r encoder_pts pts =
    if r.is_open
    then (let now = stamp env r.client encoder_pts pts in
        if r.over_tcp
        then (if env.opens r.client
            then (if env.writes r.client
                then (
                  env.pushes r.client,
                  now,
                  opened r.client ∷ written r.client now ∷ pushed r.client ∷ [],
                )
                else (false, now, opened r.client ∷ written r.client now ∷ []))
            else (false, now, opened r.client ∷ []))
        else (env.writes r.client, now, written r.client now ∷ []))
    else (true, pts, [])

-- The loop over the clients: one client's failure does not keep the packet from the others.
unfoldable pub send_loop : Answers → List Receiver → Option ℕ → Option ℕ → List Effect
unfolding send_packet
send_loop env [] encoder_pts pts = []
send_loop env (r ∷ rs) encoder_pts pts =
    let skipped = send_loop env rs encoder_pts pts in
    let sent = send_packet env r encoder_pts pts in
    let rest = send_loop env rs encoder_pts sent.1 in
    if r.is_playing then sent.2 ++ rest else skipped

-- One `pthread_rwlock_tryrdlock`: it has the lock, or it is busy while `threadLaunched` is as given.
pub data Attempt : Type 0 where
  locked : Attempt
  busy : Bool → Attempt

-- `encoder_send_packet_all`, with the attempts at the lock: none where they are used up.
unfoldable pub send_packet_all :
    Answers → List Attempt → List Receiver → Option ℕ → Option ℕ → Option (Bool × List Effect)
send_packet_all env [] rs encoder_pts pts = none
send_packet_all env (locked ∷ tries) rs encoder_pts pts =
    some (true, send_loop env rs encoder_pts pts)
send_packet_all env (busy true ∷ tries) rs encoder_pts pts =
    send_packet_all env tries rs encoder_pts pts
send_packet_all env (busy false ∷ tries) rs encoder_pts pts = some (false, [])

-- What a client should get of a packet with this pts: over UDP the frame is written; over TCP it is
-- written to a buffer that was opened for it, and the buffer is pushed to the connection, where the
-- steps before it succeed.
abbrev pub duties : Answers → Receiver → Option ℕ → List Effect
duties env r pts =
    if r.over_tcp
    then opened r.client
      ∷ (if env.opens r.client
          then written r.client pts ∷ (if env.writes r.client then pushed r.client ∷ [] else [])
          else [])
    else written r.client pts ∷ []

-- What all clients should get, each in the time base of its own stream.
abbrev pub expected : Answers → ℕ → List Receiver → List Effect
expected env t [] = []
expected env t (r ∷ rs) =
    let rest = expected env t rs in
    if r.is_playing && r.is_open then duties env r (some (env.rescale r.client t)) ++ rest else rest

send_packet-duties :
    (env : Answers) (r : Receiver) (t : ℕ) (pts : Option ℕ)
    → (send_packet env r (some t) pts).2
      ≡ (if r.is_open then duties env r (some (env.rescale r.client t)) else [])
unfolding send_packet
send_packet-duties env r t pts = ground arith

-- Each playing client whose stream is set up has the frame written once, in the clients' order, with
-- the pts in its own stream's time base: over UDP to its stream, and over TCP to a buffer that was
-- opened, which is then pushed to its connection, where the opening and the writing succeed. Nothing
-- is done for another client, and neither a failure nor the pts of one client changes what is done
-- for the next.
pub send_loop-frames :
    (env : Answers) (rs : List Receiver) (t : ℕ) (pts : Option ℕ)
    → send_loop env rs (some t) pts ≡ expected env t rs
unfolding send_loop
send_loop-frames env [] t pts = refl
send_loop-frames env (r ∷ rs) t pts = ground (
  arith,
  send_loop-frames env rs t pts,
  send_loop-frames env rs t (send_packet env r (some t) pts).1,
  send_packet-duties env r t pts,
)
