-- ===== src/RpcServer/Answers.antt =====
-- The responses of internal/rpcserver/server.go to a sequence of frames.
use pi_ops_agent.Base.{ℕ, ◌+◌, ◌≡◌, List, [], ◌∷◌, ◌++◌, none, Result, ok, err}
use pi_ops_agent.Protocol.{Request, Response}
use pi_ops_agent.Protocol.Frame.{write_frame, bytes}
use pi_ops_agent.Protocol.Parse.{parse_request}
use pi_ops_agent.RootHelper.Change.{Credential}
use pi_ops_agent.RpcServer.{
  Server, Connection, malformed_response, request_id_from_malformed, complete_response,
}

-- The payloads, each in a frame, one after the other.
pub data IsStream : List (List ℕ) → List ℕ → Type 0 where
  nothing : IsStream [] []
  framed :
      {p : List ℕ} {ps : List (List ℕ)} {b s : List ℕ}
      → write_frame p ≡ bytes b
      → IsStream ps s
      → IsStream (p ∷ ps) (b ++ s)

module _ {W : Type 0} (server : Server W) (peer : Credential) where
  -- The response to one payload, without any connection.
  abbrev pub answer_to : List ℕ → Result Request → W → Response × W
  answer_to payload (err e) w =
      (malformed_response (request_id_from_malformed server.next_value payload) e, w)
  answer_to payload (ok request) w =
      let (r, v) = server.handle peer request w in (complete_response request r, v)

  abbrev pub read_at : ℕ → List ℕ → Result Request
  read_at n payload = parse_request server.next_value server.parse_time payload (server.now n)

  -- One response for each payload, in order.
  unfoldable pub answers : List (List ℕ) → ℕ → W → List Response × W
  answers [] n w = ([], w)
  answers (p ∷ ps) n w =
      let (r, v) = answer_to p (read_at n p) w in let (rs, u) = answers ps (n + 1) v in (r ∷ rs, u)

  -- The response is encoded, and fits into a frame.
  abbrev pub Fits : Response → Type 0
  Fits r = (p : List ℕ) × (b : List ℕ) × (server.encode r ≡ ok p) × (write_frame p ≡ bytes b)

  -- No read and no write fails.
  pub record IsCalm : Type 0 where
    pub readable : (n : ℕ) → server.read_error n ≡ none
    pub writable : (n : ℕ) → server.write_error n ≡ none

  module _ (calm : IsCalm) where
    -- What a turn that writes `r` leaves.
    abbrev Writes : Response → W → Connection W → Connection W → Type 0
    Writes r v c d =
        (d.input ≡ c.input) × (d.sent ≡ c.sent ++ r ∷ []) × (d.world ≡ v) × (d.turns ≡ c.turns + 1)
