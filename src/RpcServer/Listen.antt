-- ===== src/RpcServer/Listen.antt =====
-- `ListenAndServe` and `removeStaleSocket` of internal/rpcserver/server.go, by what stands at the socket's path.
use pi_ops_agent.Base.{
  ℕ, ◌≡◌, arith, String, ◌<>◌, Bool, not, ◌&&◌, inl, inr, none, some, Option-cases, Bool-cases,
  if◌then◌else◌,
}
use pi_ops_agent.Protocol.Operations.{Error}

-- What stands at the path: nothing, a socket, or anything else.
pub data Place : Type 0 where
  absent socket occupied : Place

-- The fields of `Server` that matter here, and the error of the call numbered `n`. `accept_error` ends
-- the loop over the connections, and `cancelled` says whether the context had ended by then.
pub record Setup : Type 0 where
  pub path : String
  pub has_resolver : Bool
  pub has_handler : Bool
  pub changes_group : Bool
  pub fault : ℕ → Error
  pub accept_error : String
  pub cancelled : Bool

-- The error that is returned, and what stands at the path then.
abbrev pub Ended : Type 0
Ended = Error × Place

module _ (setup : Setup) where
  -- A call; where it fails the function returns.
  abbrev call : ℕ → Place → Ended → Ended
  call n place next = elim (setup.fault n) [ some e ↦ (some e, place) | none ↦ next ]

  -- The error, if any, and what is left.
  unfoldable pub remove_stale_socket : Place → Ended
  remove_stale_socket absent = call 1 absent (none, absent)
  remove_stale_socket socket = call 1 socket (call 2 socket (none, absent))
  remove_stale_socket occupied =
      call 1 occupied (some ("refusing to replace non-socket path " <> setup.path), occupied)

  -- The deferred `Close` removes the socket, and if it fails so may the `Remove` after it.
  abbrev after_close : Error → Ended
  after_close e = elim (setup.fault 8) [ some _ ↦ (e, socket) | none ↦ (e, absent) ]

  abbrev removed : Error → Ended
  removed e = elim (setup.fault 7) [ some _ ↦ after_close e | none ↦ (e, absent) ]

  abbrev after_accept : Ended
  after_accept = if setup.cancelled then removed none else removed (some setup.accept_error)

  abbrev group_changed : Ended
  group_changed = elim (setup.fault 6) [ some e ↦ removed (some e) | none ↦ after_accept ]

  -- From the bound socket on: its mode and group, and the loop over the connections.
  unfoldable pub serve_at : Ended
  serve_at = elim (setup.fault 5) [
    | some e ↦ removed (some e)
    | none ↦ if setup.changes_group then group_changed else after_accept
  ]

  -- The resolved address is bound, where nothing stands any more.
  unfoldable pub bind_socket : Ended → Ended
  bind_socket (some e, place) = (some e, place)
  bind_socket (none, place) = call 3 place (call 4 place serve_at)

  unfoldable pub listen : Place → Ended
  listen place =
      if not (setup.has_resolver && setup.has_handler)
      then (some "resolver and handler are required", place)
      else call 0 place (bind_socket (remove_stale_socket place))

  -- `Close`, which also takes the socket away, if `ListenAndServe` has come to listen.
  unfoldable pub close : Bool → Place → Ended
  close is_listening place = if is_listening then call 9 place (none, absent) else (none, place)

  -- Whatever calls fail, `ListenAndServe` leaves a path alone at which something stands that is
  -- not a socket, and returns an error.
  pub listen-occupied : (e : String) × (listen occupied ≡ (some e, occupied))
  unfolding listen bind_socket remove_stale_socket
  listen-occupied = elim (Bool-cases (setup.has_resolver && setup.has_handler)) [
    | inr bare ↦ ("resolver and handler are required", ground arith)
    | inl whole ↦ elim (Option-cases (setup.fault 0)) [
      | inr (e, failed) ↦ (e, ground arith)
      | inl made ↦ elim (Option-cases (setup.fault 1)) [
        | inr (e, failed) ↦ (e, ground arith)
        | inl seen ↦ ("refusing to replace non-socket path " <> setup.path, ground arith)
      ]
    ]
  ]
