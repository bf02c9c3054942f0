-- ===== src/RpcServer/Sound.antt =====
-- What the handler of internal/rpcserver/server.go is called with, and what the peer is sent.
use pi_ops_agent.Base.{
  ℕ, ◌+◌, ◌≡◌, refl, sym, ◌⊎◌, inl, inr, arith, String, Bool, true, false, not, ◌&&◌, List, [], ◌∷◌,
  ◌++◌, All, All-append, Result, ok, err, Result-cases, Option-cases, Bool-cases, ◌=?◌, ◌==◌,
  ==_iff, string_eq,
}
use mathlib.Core.Path.{subst}
use pi_ops_agent.Protocol.{Request, Response}
use pi_ops_agent.Protocol.Frame.{FrameError, Written, write_frame, bytes, refused, read_frame}
use pi_ops_agent.Protocol.Pattern.{codes, request_id_pattern}
use pi_ops_agent.Protocol.Json.{unmarshal}
use pi_ops_agent.Protocol.Parse.{parse_request}
use pi_ops_agent.Protocol.Parse.WellFormed.{is_well_formed, parse_request-is_well_formed}
use pi_ops_agent.RootHelper.Change.{Credential}
use pi_ops_agent.RpcServer.{
  Server, Connection, Turn, stopped, again, id_field, known_id, sent_bytes, write_payload,
  malformed_response, request_id_from_malformed, complete_response, write_response, answer_parsed,
  turn, serve_connection,
}
use pi_ops_agent.RpcServer.Ends.{Served, returns, goes_on, Read-cases, serve_connection-Served}

-- The response says its version and to which request it belongs.
abbrev pub is_addressed : Response → Bool
is_addressed r = not (r.version =? 0) && not (r.request_id == "")

abbrev pub IsAddressed : Response → Type 0
IsAddressed r = is_addressed r ≡ true

abbrev pub IsCallable : ℕ × Request → Type 0
IsCallable (now, r) = is_well_formed now r ≡ true

abbrev pub IsSound : {W : Type 0} → Connection W → Type 0
IsSound c = All IsCallable c.calls × All IsAddressed c.sent

pattern-named : (id : String) → request_id_pattern (codes id) ≡ true → (id == "") ≡ false
unfolding request_id_pattern
pattern-named id good = elim (Bool-cases (id == "")) [
  | inr named ↦ named
  | inl empty ↦
      let blank : request_id_pattern (codes "") ≡ true =
        subst (λ t. request_id_pattern (codes t) ≡ true) ((==_iff id "").0 empty) good in
      absurd (ground (arith, blank))
]

malformed-IsAddressed : (id e : String) → (id == "") ≡ false → IsAddressed (malformed_response id e)
malformed-IsAddressed id e named = ground arith

abbrev placeholder : String
placeholder = "invalid-request"

placeholder-named : (placeholder == "") ≡ false
unfolding string_eq
placeholder-named = refl

known_id-named : (read : Result String) → (known_id read == "") ≡ false
known_id-named (err e) = placeholder-named
known_id-named (ok id) = elim (Bool-cases (id == "")) [
  | inl empty ↦ rw empty placeholder-named
  | inr named ↦ rw named named
]

complete_response-IsAddressed :
    (request : Request) (r : Response)
    → (request.request_id == "") ≡ false
    → IsAddressed (complete_response request r)
unfolding complete_response
complete_response-IsAddressed request r named = ground arith

well_formed-pattern :
    (now : ℕ) (r : Request)
    → is_well_formed now r ≡ true
    → request_id_pattern (codes r.request_id) ≡ true
unfolding is_well_formed
well_formed-pattern now r good = ground arith

pub Written-cases :
    (w : Written) → ((b : List ℕ) × (w ≡ bytes b)) ⊎ ((e : FrameError) × (w ≡ refused e))
Written-cases (bytes b) = inl (b, refl)
Written-cases (refused e) = inr (e, refl)

module _ {W : Type 0} (server : Server W) (peer : Credential) where
  -- What a turn has reached when it ends.
  abbrev IsSoundTurn : Turn W → Type 0
  IsSoundTurn (stopped d) = IsSound d
  IsSoundTurn (again d) = IsSound d

  by_equation : {t : Turn W} (u : Turn W) → t ≡ u → IsSoundTurn u → IsSoundTurn t
  by_equation u same sound = subst IsSoundTurn (sym same) sound

  module _ (r : Response) (c : Connection W) (addressed : IsAddressed r) (sound : IsSound c) where
    sent_bytes-IsSound : (b : List ℕ) → IsSoundTurn (sent_bytes server peer r b c)
    sent_bytes-IsSound b = elim (Option-cases (server.write_error c.turns)) [
      | inr (e, failed) ↦ by_equation (stopped c) (ground arith) sound
      | inl fine ↦
          by_equation
            (again
              (record c { output = c.output ++ b; sent = c.sent ++ r ∷ []; turns = c.turns + 1 }))
            (ground arith) (sound.0, All-append IsAddressed c.sent (r ∷ []) sound.1 (addressed, tt))
    ]

    write_payload-IsSound : (payload : List ℕ) → IsSoundTurn (write_payload server peer r payload c)
    write_payload-IsSound payload = elim (Written-cases (write_frame payload)) [
      | inr (e, failed) ↦ by_equation (stopped c) (ground arith) sound
      | inl (b, fine) ↦
          by_equation (sent_bytes server peer r b c) (ground arith) (sent_bytes-IsSound b)
    ]

    write_response-IsSound : IsSoundTurn (write_response server peer r c)
    unfolding write_response
    write_response-IsSound = elim (Result-cases (server.encode r)) [
      | inr (e, failed) ↦ by_equation (stopped c) (ground arith) sound
      | inl (payload, fine) ↦
          by_equation (write_payload server peer r payload c) (ground arith)
            (write_payload-IsSound payload)
    ]

  answer_parsed-IsSound :
      (payload : List ℕ) (parsed : Result Request) (c : Connection W)
      → parse_request server.next_value server.parse_time payload (server.now c.turns) ≡ parsed
      → IsSound c
      → IsSoundTurn (answer_parsed server peer payload parsed c)
  unfolding answer_parsed request_id_from_malformed
  answer_parsed-IsSound payload (err e) c is sound =
      let id = request_id_from_malformed server.next_value payload in
      write_response-IsSound (malformed_response id e) c
        (malformed-IsAddressed id e
          (known_id-named (unmarshal server.next_value id_field payload "")))
        sound
  answer_parsed-IsSound payload (ok request) c is sound =
      let (good, _) =
        parse_request-is_well_formed server.next_value server.parse_time payload
          (server.now c.turns) request is in
      let r = server.handle peer request c.world in
      write_response-IsSound (complete_response request r.0)
        (record c { world = r.1; calls = (server.now c.turns, request) ∷ c.calls })
        (complete_response-IsAddressed request r.0 (
          pattern-named request.request_id (well_formed-pattern (server.now c.turns) request good)))
        ((good, sound.0), sound.1)

  turn-IsSound : (c : Connection W) → IsSound c → IsSoundTurn (turn server peer c)
  unfolding turn
  turn-IsSound c sound = elim (Option-cases (server.read_error c.turns)) [
    | inr (e, failed) ↦ by_equation (stopped c) (ground arith) sound
    | inl readable ↦ elim (Read-cases (read_frame c.input)) [
      | inr (e, failed) ↦ by_equation (stopped c) (ground arith) sound
      | inl (payload, rest, read) ↦
          let parsed =
            parse_request server.next_value server.parse_time payload (server.now c.turns) in
          by_equation (answer_parsed server peer payload parsed (record c { input = rest }))
            (ground arith)
            (answer_parsed-IsSound payload parsed (record c { input = rest }) refl sound)
    ]
  ]

  Served-IsSound : {c d : Connection W} → Served server peer c d → IsSound c → IsSound d
  Served-IsSound {c} (returns stop) sound = subst IsSoundTurn stop (turn-IsSound c sound)
  Served-IsSound {c} (goes_on went more) sound =
      Served-IsSound more (subst IsSoundTurn went (turn-IsSound c sound))

module _ {W : Type 0} (server : Server W) where
  -- Whatever bytes a peer sends and whichever reads and writes fail, the handler is called only
  -- with well-formed requests, whose deadlines are ahead and at most ten minutes away when they
  -- are read, and every response that is sent has a version other than 0 and a request id that is
  -- not empty, if so it was before.
  pub serve_connection-IsSound :
      (resolved : Result Credential) (c : Connection W)
      → IsSound c
      → IsSound (serve_connection server resolved c)
  unfolding serve_connection
  serve_connection-IsSound (err e) c sound = sound
  serve_connection-IsSound (ok found) c sound =
      Served-IsSound server found (serve_connection-Served server found c) sound
