-- ===== src/RpcServer/Connections/Kept.antt =====
-- What the turns of the connections of internal/rpcserver/server.go keep of the handler's state.
use pi_ops_agent.Base.{
  ℕ, zero, suc, ◌≡◌, sym, List, [], ◌∷◌, Result, ok, err, All, Result-cases, Option-cases, inl, inr,
  arith,
}
use mathlib.Core.Path.{subst}
use pi_ops_agent.Protocol.{Request, Response}
use pi_ops_agent.Protocol.Frame.{read_frame, write_frame}
use pi_ops_agent.Protocol.Parse.{parse_request}
use pi_ops_agent.RootHelper.Change.{Credential}
use pi_ops_agent.RpcServer.{
  Connection, Turn, stopped, again, sent_bytes, write_payload, write_response, answer_parsed, turn,
}
use pi_ops_agent.RpcServer.Ends.{Read-cases}
use pi_ops_agent.RpcServer.Sound.{Written-cases}
use pi_ops_agent.RpcServer.Connections.{
  Wire, Happening, accepted, turned, server_over, Open, accept, after_turn, turn_at,
  serve_connections,
}

-- A connection that is accepted is of one of these peers.
abbrev pub IsFrom : (Credential → Type 0) → Happening → Type 0
IsFrom Q (accepted peer wire input) = Q peer
IsFrom Q (turned n) = Unit

-- The peers may be any.
abbrev pub Anyone : Credential → Type 0
Anyone peer = Unit

pub IsFrom-Anyone : (happenings : List Happening) → All (IsFrom Anyone) happenings
IsFrom-Anyone [] = tt
IsFrom-Anyone (accepted peer wire input ∷ rest) = (tt, IsFrom-Anyone rest)
IsFrom-Anyone (turned n ∷ rest) = (tt, IsFrom-Anyone rest)

module _ {W : Type 0} (handle : Credential → Request → W → Response × W) where
  abbrev world_of : Turn W → W
  world_of (stopped c) = c.world
  world_of (again c) = c.world

  module _ (wire : Wire) (peer : Credential) (r : Response) (c : Connection W) where
    sent_bytes-world :
        (b : List ℕ) → world_of (sent_bytes (server_over handle wire) peer r b c) ≡ c.world
    sent_bytes-world b = elim (Option-cases (wire.write_error c.turns)) [
      | inr (e, failed) ↦ ground arith
      | inl fine ↦ ground arith
    ]

    write_payload-world :
        (payload : List ℕ)
        → world_of (write_payload (server_over handle wire) peer r payload c) ≡ c.world
    write_payload-world payload = elim (Written-cases (write_frame payload)) [
      | inr (e, failed) ↦ ground arith
      | inl (b, fine) ↦ ground (arith, sent_bytes-world b)
    ]

    write_response-world : world_of (write_response (server_over handle wire) peer r c) ≡ c.world
    unfolding write_response
    write_response-world = elim (Result-cases (wire.encode r)) [
      | inr (e, failed) ↦ ground arith
      | inl (payload, fine) ↦ ground (arith, write_payload-world payload)
    ]

  -- What every call of the handler for some peers keeps, every turn for them keeps.
  module _ {Q : Credential → Type 0} {P : W → Type 0}
      (keeps : (peer : Credential) (request : Request) (w : W)
        → Q peer
        → P w
        → P (handle peer request w).1) where
    abbrev Kept : Turn W → Type 0
    Kept t = P (world_of t)

    answer_parsed-Kept :
        (wire : Wire) (peer : Credential) (payload : List ℕ) (parsed : Result Request)
        (c : Connection W)
        → Q peer
        → P c.world
        → Kept (answer_parsed (server_over handle wire) peer payload parsed c)
    unfolding answer_parsed
    answer_parsed-Kept wire peer payload (err e) c q h =
        subst P (sym (write_response-world wire peer _ c)) h
    answer_parsed-Kept wire peer payload (ok request) c q h =
        subst P (sym (write_response-world wire peer _ _)) (keeps peer request c.world q h)

    turn-Kept :
        (wire : Wire) (peer : Credential) (c : Connection W)
        → Q peer
        → P c.world
        → Kept (turn (server_over handle wire) peer c)
    unfolding turn
    turn-Kept wire peer c q h = elim (Option-cases (wire.read_error c.turns)) [
      | inr (e, failed) ↦ rw (failed, turn) h
      | inl readable ↦ elim (Read-cases (read_frame c.input)) [
        | inr (e, failed) ↦ rw (readable, turn) (rw failed h)
        | inl (payload, rest, read) ↦
            rw (readable, turn)
              (rw read (
                answer_parsed-Kept wire peer payload
                  (parse_request wire.next_value wire.parse_time payload (wire.now c.turns))
                  (record c { input = rest }) q h))
      ]
    ]

    -- The state, and the peers of the open connections.
    abbrev pub AreKept : List (Open handle) × W → Type 0
    AreKept (os, w) = All (λ (o : Open handle). Q o.peer) os × P w

    after_turn-AreKept :
        (o : Open handle) (os : List (Open handle)) (t : Turn W)
        → Q o.peer
        → All (λ (x : Open handle). Q x.peer) os
        → Kept t
        → AreKept (after_turn handle o os t)
    after_turn-AreKept o os (stopped c) q qs h = (qs, h)
    after_turn-AreKept o os (again c) q qs h = ((q, qs), h)

    turn_at-AreKept :
        (n : ℕ) (os : List (Open handle)) (w : W)
        → AreKept (os, w)
        → AreKept (turn_at handle n os w)
    unfolding turn_at
    turn_at-AreKept n [] w h = h
    turn_at-AreKept zero (o ∷ os) w ((q, qs), h) =
        let c = record o.connection { world = w } in
        after_turn-AreKept o os (turn (server_over handle o.wire) o.peer c) q qs
          (turn-Kept o.wire o.peer c q h)
    turn_at-AreKept (suc n) (o ∷ os) w ((q, qs), h) =
        let (rest, kept) = turn_at-AreKept n os w (qs, h) in ((q, rest), kept)

    serve_connections-AreKept :
        (happenings : List Happening) (s : List (Open handle) × W)
        → All (IsFrom Q) happenings
        → AreKept s
        → AreKept (serve_connections handle happenings s)
    unfolding serve_connections
    serve_connections-AreKept [] s from h = h
    serve_connections-AreKept (accepted peer wire input ∷ rest) (os, w) (q, from) (qs, h) =
        serve_connections-AreKept rest (accept handle peer wire input w ∷ os, w) from ((q, qs), h)
    serve_connections-AreKept (turned n ∷ rest) (os, w) (_, from) h =
        serve_connections-AreKept rest (turn_at handle n os w) from (turn_at-AreKept n os w h)

    -- From no connection on.
    pub serve_connections-kept :
        (happenings : List Happening) (w : W)
        → All (IsFrom Q) happenings
        → P w
        → P (serve_connections handle happenings ([], w)).1
    serve_connections-kept happenings w from h =
        (serve_connections-AreKept happenings ([], w) from (tt, h)).1
