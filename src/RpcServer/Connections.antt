-- ===== src/RpcServer/Connections.antt =====
-- The connections of internal/rpcserver/server.go, each served by a goroutine of its own over the
-- state of one handler.
pub mod Kept
use pi_ops_agent.Base.{
  ℕ, zero, suc, ◌≡◌, sym, String, List, [], ◌∷◌, Result, ok, err, Result-cases, Option-cases, inl,
  inr, arith,
}
use pi_ops_agent.Protocol.{Request, Response}
use pi_ops_agent.Protocol.Operations.{Error}
use pi_ops_agent.Protocol.Frame.{read_frame, write_frame}
use pi_ops_agent.Protocol.Json.{Scan}
use pi_ops_agent.Protocol.Parse.{parse_request}
use pi_ops_agent.RootHelper.Change.{Credential}
use pi_ops_agent.RpcServer.{
  Server, Connection, Turn, stopped, again, sent_bytes, write_payload, write_response,
  answer_parsed, turn,
}
use pi_ops_agent.RpcServer.Ends.{Read-cases}
use pi_ops_agent.RpcServer.Sound.{Written-cases}
use mathlib.Core.Path.{subst}

-- What the outside answers on one connection, and the library code that is called.
pub record Wire : Type 0 where
  pub next_value : List ℕ → Scan
  pub parse_time : String → Result ℕ
  pub encode : Response → Result (List ℕ)
  pub read_error : ℕ → Error
  pub now : ℕ → ℕ
  pub write_error : ℕ → Error

-- A connection is accepted, with what its peer sends over it, or the loop of one of those that are
-- open makes a turn. One whose peer `Resolve` does not tell is closed at once.
pub data Happening : Type 0 where
  accepted : Credential → Wire → List ℕ → Happening
  turned : ℕ → Happening

module _ {W : Type 0} (handle : Credential → Request → W → Response × W) where
  abbrev pub server_over : Wire → Server W
  server_over wire = record {
    handle = handle;
    next_value = wire.next_value;
    parse_time = wire.parse_time;
    encode = wire.encode;
    read_error = wire.read_error;
    now = wire.now;
    write_error = wire.write_error;
  }

  -- A connection that is served; the handler's state in it is that of its last turn.
  pub record Open : Type 0 where
    pub peer : Credential
    pub wire : Wire
    pub connection : Connection W

  abbrev pub accept : Credential → Wire → List ℕ → W → Open
  accept peer wire input w = record {
    peer = peer;
    wire = wire;
    connection = record { input = input; output = []; sent = []; calls = []; world = w; turns = 0 };
  }

  -- The connection is closed when its loop returns.
  abbrev pub after_turn : Open → List Open → Turn W → List Open × W
  after_turn o os (stopped c) = (os, c.world)
  after_turn o os (again c) = (record o { connection = c } ∷ os, c.world)

  -- A turn of one of the open connections, on the state that the others have left.
  unfoldable pub turn_at : ℕ → List Open → W → List Open × W
  turn_at n [] w = ([], w)
  turn_at zero (o ∷ os) w =
      after_turn o os (turn (server_over o.wire) o.peer (record o.connection { world = w }))
  turn_at (suc n) (o ∷ os) w = let (rest, w') = turn_at n os w in (o ∷ rest, w')

  unfoldable pub happen : Happening → List Open × W → List Open × W
  unfolding turn_at
  happen (accepted peer wire input) (os, w) = (accept peer wire input w ∷ os, w)
  happen (turned n) (os, w) = turn_at n os w

  unfoldable pub serve_connections : List Happening → List Open × W → List Open × W
  unfolding happen
  serve_connections [] s = s
  serve_connections (h ∷ rest) s = serve_connections rest (happen h s)
