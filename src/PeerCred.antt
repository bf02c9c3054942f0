-- ===== src/PeerCred.antt =====
-- internal/peercred/peercred_linux.go: the credential of the peer of a socket.
use pi_ops_agent.Base.{◌<>◌, Option, none, some, Result, ok, err}
use pi_ops_agent.Protocol.Operations.{Error}
use pi_ops_agent.RootHelper.Change.{Credential}

-- What the system answers: the errors of `SyscallConn` and `Control`, and what `GetsockoptUcred` gives.
pub record Socket : Type 0 where
  pub connection_error : Error
  pub control_error : Error
  pub option_error : Error
  pub credential : Option Credential

abbrev from_option : Socket → Result Credential
from_option s = elim s.option_error [
  | some e ↦ err ("SO_PEERCRED: " <> e)
  | none ↦ elim s.credential [ none ↦ err "SO_PEERCRED returned no credential" | some c ↦ ok c ]
]

-- `OSResolver.Resolve`
unfoldable pub resolve_peer : Socket → Result Credential
resolve_peer s = elim s.connection_error [
  | some e ↦ err e
  | none ↦ elim s.control_error [ some e ↦ err e | none ↦ from_option s ]
]
