-- ===== src/RpcServer.antt =====
-- internal/rpcserver/server.go: the serving of one connection, frame by frame.
pub mod Listen
pub mod Ends
pub mod Sound
pub mod Answers
pub mod Connections
pub mod Examples
use pi_ops_agent.Base.{
  ℕ, zero, suc, ◌+◌, String, ◌<>◌, Bool, true, false, not, List, [], ◌∷◌, ◌++◌, Option, none, some,
  Result, ok, err, ◌=?◌, if◌then◌else◌, ◌==◌, string_eq, length,
}
use pi_ops_agent.Protocol.{Request, Response, no_data, version}
use pi_ops_agent.Protocol.Operations.{Error}
use pi_ops_agent.Protocol.Frame.{read_frame, frame, failure, write_frame, bytes, refused}
use pi_ops_agent.Protocol.Json.{Scan, Field, text_field, unmarshal}
use pi_ops_agent.Protocol.Parse.{parse_request}
use pi_ops_agent.RootHelper.Change.{Credential}

-- The handler over a state of its own, and the library code that is called. What the outside answers
-- in the turn numbered `n`: whether the read fails, the time, and the error of the write.
pub record Server (W : Type 0) : Type 0 where
  pub handle : Credential → Request → W → Response × W
  pub next_value : List ℕ → Scan
  pub parse_time : String → Result ℕ
  pub encode : Response → Result (List ℕ)
  pub read_error : ℕ → Error
  pub now : ℕ → ℕ
  pub write_error : ℕ → Error

-- What the peer still sends, what it was sent, the responses in it, and the calls of the handler with
-- the time at which the request was read. The number of turns so far.
pub record Connection (W : Type 0) : Type 0 where
  pub input : List ℕ
  pub output : List ℕ
  pub sent : List Response
  pub calls : List (ℕ × Request)
  pub world : W
  pub turns : ℕ

-- One turn of the loop: it returns, or goes on.
pub data Turn (W : Type 0) : Type 0 where
  stopped again : Connection W → Turn W

abbrev pub id_field : List (Field String)
id_field = text_field "requestId" (λ t s. t) ∷ []

abbrev pub known_id : Result String → String
known_id (err e) = "invalid-request"
known_id (ok id) = if id == "" then "invalid-request" else id

unfoldable pub request_id_from_malformed : (List ℕ → Scan) → List ℕ → String
request_id_from_malformed next_value payload = known_id (unmarshal next_value id_field payload "")

abbrev pub malformed_response : String → String → Response
malformed_response id e = record {
  version = version;
  request_id = id;
  success = false;
  audit_id = "";
  change_id = "";
  state = none;
  summary = "";
  payload = no_data;
  error = e;
}

-- The version and the request id that the handler left out.
unfoldable pub complete_response : Request → Response → Response
complete_response request r = record r {
  version = if r.version =? 0 then version else r.version;
  request_id = if r.request_id == "" then request.request_id else r.request_id;
}

module _ {W : Type 0} (server : Server W) (peer : Credential) where
  abbrev pub sent_bytes : Response → List ℕ → Connection W → Turn W
  sent_bytes r payload c = elim (server.write_error c.turns) [
    | some e ↦ stopped c
    | none ↦
        again
          (record c { output = c.output ++ payload; sent = c.sent ++ r ∷ []; turns = c.turns + 1 })
  ]

  abbrev pub write_payload : Response → List ℕ → Connection W → Turn W
  write_payload r payload c = elim (write_frame payload) [
    | refused e ↦ stopped c
    | bytes b ↦ sent_bytes r b c
  ]

  -- `writeResponse`, and the return where it fails. A write that fails may have sent a part of the frame.
  unfoldable pub write_response : Response → Connection W → Turn W
  write_response r c = elim (server.encode r) [
    | err e ↦ stopped c
    | ok payload ↦ write_payload r payload c
  ]

  -- From the parsed request on.
  unfoldable pub answer_parsed : List ℕ → Result Request → Connection W → Turn W
  answer_parsed payload (err e) c =
      write_response (malformed_response (request_id_from_malformed server.next_value payload) e) c
  answer_parsed payload (ok request) c =
      let (r, world) = server.handle peer request c.world in
      write_response (complete_response request r)
        (record c { world = world; calls = (server.now c.turns, request) ∷ c.calls })

  unfoldable pub turn : Connection W → Turn W
  turn c = elim (server.read_error c.turns) [
    | some e ↦ stopped c
    | none ↦ elim (read_frame c.input) [
      | failure e ↦ stopped c
      | frame payload rest ↦
          answer_parsed payload
            (parse_request server.next_value server.parse_time payload (server.now c.turns))
            (record c { input = rest })
    ]
  ]

  -- The loop of `serveConnection`, for at most so many turns.
  unfoldable pub serve : ℕ → Connection W → Connection W
  serve zero c = c
  serve (suc fuel) c = elim (turn c) [ stopped d ↦ d | again d ↦ serve fuel d ]

-- `serveConnection`: every turn that goes on takes a byte of the input at least.
unfoldable pub serve_connection :
    {W : Type 0} → Server W → Result Credential → Connection W → Connection W
serve_connection server (err e) c = c
serve_connection server (ok peer) c = serve server peer (suc (length c.input)) c
