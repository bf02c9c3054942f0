-- ===== src/RpcServer/Ends.antt =====
-- The loop of `serveConnection` of internal/rpcserver/server.go ends, whatever the peer sends.
use pi_ops_agent.Base.{
  ℕ, zero, suc, ◌+◌, ◌≤◌, ◌<◌, ◌≡◌, refl, ◌⊎◌, inl, inr, arith, List, [], ◌∷◌, Result, ok, err,
  Option-cases, Bool-cases, ltb, length, take, drop, string_eq,
}
use pi_ops_agent.Protocol.{Request, Response}
use pi_ops_agent.Protocol.Frame.{FrameError, Read, read_frame, frame, failure, uint32_of}
use pi_ops_agent.Protocol.Parse.{parse_request}
use pi_ops_agent.RootHelper.Change.{Credential}
use pi_ops_agent.RpcServer.{
  Server, Connection, Turn, stopped, again, write_response, answer_parsed, turn, serve,
  serve_connection,
}

length-drop_le : {A : Type 0} (n : ℕ) (xs : List A) → length (drop n xs) ≤ length xs
length-drop_le zero xs = omega arith
length-drop_le (suc n) [] = omega arith
length-drop_le (suc n) (x ∷ xs) = omega (arith, length-drop_le n xs)

length-drop :
    {A : Type 0} (n : ℕ) (xs : List A) → n ≤ length xs → length (drop n xs) + n ≡ length xs
length-drop zero xs few = omega arith
length-drop (suc n) [] few = omega (arith, few)
length-drop (suc n) (x ∷ xs) few = omega (arith, length-drop n xs (omega (arith, few)))

-- A frame takes its header at least.
pub read_frame-shorter :
    (stream payload rest : List ℕ)
    → read_frame stream ≡ frame payload rest
    → length rest < length stream
unfolding read_frame
read_frame-shorter stream payload rest read =
    let n = uint32_of (take 4 stream) in
    elim (Bool-cases (ltb (length stream) 4)) [
      | inl short ↦ ground arith
      | inr long ↦
          let head = length-drop 4 stream (ground arith) in
          let body = length-drop_le n (drop 4 stream) in ground arith
    ]

pub Read-cases :
    (r : Read)
    → ((payload : List ℕ) × (rest : List ℕ) × (r ≡ frame payload rest))
      ⊎ ((e : FrameError) × (r ≡ failure e))
Read-cases (frame payload rest) = inl (payload, rest, refl)
Read-cases (failure e) = inr (e, refl)

pub Turn-cases :
    {W : Type 0} (t : Turn W)
    → ((d : Connection W) × (t ≡ again d)) ⊎ ((d : Connection W) × (t ≡ stopped d))
Turn-cases (again d) = inl (d, refl)
Turn-cases (stopped d) = inr (d, refl)

-- The runs of the loop, from a connection to the one at its return.
pub data Served {W : Type 0} (server : Server W) (peer : Credential)
    : Connection W → Connection W → Type 0 where
  returns : {c d : Connection W} → turn server peer c ≡ stopped d → Served server peer c d
  goes_on :
      {c d e : Connection W}
      → turn server peer c ≡ again d
      → Served server peer d e
      → Served server peer c e

module _ {W : Type 0} (server : Server W) (peer : Credential) where
  write_response-input :
      (r : Response) (c d : Connection W)
      → write_response server peer r c ≡ again d
      → d.input ≡ c.input
  unfolding write_response
  write_response-input r c d went = ground arith

  answer_parsed-input :
      (payload : List ℕ) (parsed : Result Request) (c d : Connection W)
      → answer_parsed server peer payload parsed c ≡ again d
      → d.input ≡ c.input
  unfolding answer_parsed
  answer_parsed-input payload (err e) c d went = write_response-input _ c d went
  answer_parsed-input payload (ok request) c d went = write_response-input _ _ d went

  turn-shorter :
      (c d : Connection W) → turn server peer c ≡ again d → length d.input < length c.input
  unfolding turn
  turn-shorter c d went = elim (Option-cases (server.read_error c.turns)) [
    | inr (e, failed) ↦ ground arith
    | inl readable ↦ elim (Read-cases (read_frame c.input)) [
      | inr (e, failed) ↦ ground arith
      | inl (payload, rest, read) ↦
          let parsed =
            parse_request server.next_value server.parse_time payload (server.now c.turns) in
          let step : answer_parsed server peer payload parsed (record c { input = rest })
              ≡ again d =
            ground arith in
          let same = answer_parsed-input payload parsed (record c { input = rest }) d step in
          let shorter = read_frame-shorter c.input payload rest read in ground arith
    ]
  ]

  -- With more turns than bytes the loop has returned.
  serve-Served :
      (fuel : ℕ) (c : Connection W)
      → length c.input < fuel
      → Served server peer c (serve server peer fuel c)
  unfolding serve
  serve-Served zero c enough = absurd (omega (arith, enough))
  serve-Served (suc fuel) c enough = elim (Turn-cases (turn server peer c)) [
    | inr (d, stop) ↦ rw (serve, stop) (returns stop)
    | inl (d, went) ↦
        let shorter = turn-shorter c d went in
        rw (serve, went) (goes_on went (serve-Served fuel d (omega (arith, shorter, enough))))
  ]

  -- On an input that ends, whatever it is, the loop of `serveConnection` returns: its result is
  -- reached by turns that go on and a last one that stops.
  pub serve_connection-Served :
      (c : Connection W) → Served server peer c (serve_connection server (ok peer) c)
  unfolding serve_connection
  serve_connection-Served c = serve-Served (suc (length c.input)) c (omega arith)
