-- ===== src/RootHelper/Guarantees/Replay.antt =====
-- A request that comes again: `Cached` and `Cache` of internal/roothelper/store.go, as `Handle` of
-- service.go uses them.
use pi_ops_agent.Base.{
  ◌≡◌, refl, ap, ◌∙◌, ◌+◌, ◌<◌, String, Bool, true, false, ◌&&◌, Option, some, arith, ok, err,
  string_eq, nat_eq, ◌==◌, if◌then◌else◌, hex_text,
}
use pi_ops_agent.Base.Dict.{lookup}
use pi_ops_agent.Protocol.{Request, Response}
use pi_ops_agent.RootHelper.Change.{Credential, Context, RequestRecord}
use pi_ops_agent.RootHelper.Store.{cached}
use pi_ops_agent.RootHelper.Machine.{Env, Sys}
use pi_ops_agent.RootHelper.Service.{failed}
use pi_ops_agent.RootHelper.Service.Dispatch.{handle, answer, fingerprint}

module _ {W : Type 0} (env : Env W) where
  -- The service is set up, and the request's deadline lies after what the clock will show.
  pub record IsServed (request : Request) (s : Sys W) : Type 0 where
    pub store_and_audit : env.has_store_and_audit ≡ true
    pub executor : env.has_executor ≡ true
    pub early : env.clock s.tick < request.deadline

  pub handle-served :
      (ctx : Context) (peer : Credential) (request : Request) (s : Sys W)
      → IsServed request s
      → handle env ctx peer request s
        ≡ answer env ctx peer request
            (cached request.request_id peer.uid (fingerprint env ctx peer request) s.store)
            (record s { tick = s.tick + 1 })
  unfolding handle
  handle-served ctx peer request s served = ground arith

  abbrev pub remembered : Request → Sys W → Option RequestRecord
  remembered request s = lookup request.request_id s.store.memory.requests

  answer-if :
      (ctx : Context) (peer : Credential) (request : Request) (b : Bool) (r : Response) (e : String)
      (s : Sys W)
      → answer env ctx peer request (if b then ok (some r) else err e) s
        ≡ (if b then r else failed request e, s)
  unfolding answer
  answer-if ctx peer request true r e s = refl
  answer-if ctx peer request false r e s = refl

  cached-some :
      (peer : Credential) (request : Request) (s : Sys W) (r : RequestRecord)
      → remembered request s ≡ some r
      → cached request.request_id peer.uid (hex_text (env.sha256 request.raw)) s.store ≡ (
          if (r.uid == peer.uid) && (r.fingerprint == hex_text (env.sha256 request.raw))
          then ok (some r.response)
          else err "requestId replayed by another peer or with different content")
  unfolding cached
  cached-some peer request s r known = rw known

  -- The response kept for a request id is given again to the same peer for the same bytes, and is
  -- refused to another peer or for other bytes; either way nothing of the state changes but the
  -- reading of the clock, and no method runs. The service is set up and the deadline has not
  -- passed.
  pub handle-remembered :
      (ctx : Context) (peer : Credential) (request : Request) (s : Sys W) (r : RequestRecord)
      → IsServed request s
      → remembered request s ≡ some r
      → handle env ctx peer request s ≡ (
        if (r.uid == peer.uid) && (r.fingerprint == hex_text (env.sha256 request.raw))
            then r.response
            else failed request "requestId replayed by another peer or with different content",
        record s { tick = s.tick + 1 },
      )
  unfolding fingerprint
  handle-remembered ctx peer request s r served known =
      let again = (r.uid == peer.uid) && (r.fingerprint == hex_text (env.sha256 request.raw)) in
      handle-served ctx peer request s served
      ∙ (ap (λ c. answer env ctx peer request c (record s { tick = s.tick + 1 }))
            (cached-some peer request s r known)
          ∙ answer-if ctx peer request again r.response _ (record s { tick = s.tick + 1 }))
