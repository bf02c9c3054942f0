-- ===== src/RootHelper/Guarantees/Remember.antt =====
-- What `Handle` of internal/roothelper/service.go keeps of a request that it has answered.
use pi_ops_agent.Base.{
  ℕ, ◌≡◌, refl, ap, sym, ◌∙◌, ◌+◌, ◌==◌, String, Bool, true, none, some, arith, Result, ok, err,
  string_eq, Option-cases, inl, inr, if-both,
}
use mathlib.Core.Path.{subst}
use pi_ops_agent.Base.Dict.{lookup, lookup-insert_self}
use pi_ops_agent.Protocol.{Request, Response}
use pi_ops_agent.RootHelper.Change.{Credential, Context, RequestRecord}
use pi_ops_agent.RootHelper.Store.{Store, StateCodec, PersistAnswers, cached, cache}
use pi_ops_agent.RootHelper.Store.Durable.{persist_locked-memory}
use pi_ops_agent.RootHelper.Machine.{Env, Sys, append_audit}
use pi_ops_agent.RootHelper.Service.{failed}
use pi_ops_agent.RootHelper.Service.Dispatch.{
  handle, answer, fingerprint, finish, remember, complete, dispatch, audited_response,
  stored_response, event_of, set_version, set_request_id,
}
use pi_ops_agent.RootHelper.Guarantees.Replay.{IsServed, handle-served, remembered}

lookup-cache :
    (codec : StateCodec) (a : PersistAnswers) (id : String) (uid : ℕ) (text : String) (r : Response)
    (s : Store)
    → lookup id (cache codec a id uid text r s).1.memory.requests
      ≡ some (record { uid = uid; fingerprint = text; response = r })
unfolding cache
lookup-cache codec a id uid text r s =
    rw (persist_locked-memory codec a _) (lookup-insert_self id _ s.memory.requests)

module _ {W : Type 0} (env : Env W) (ctx : Context) (peer : Credential) (request : Request) where
  -- The record of a response.
  abbrev record_of : Response → RequestRecord
  record_of r = record {
    uid = peer.uid;
    fingerprint = fingerprint env ctx peer request;
    response = r;
  }

  -- A success is kept under the request's id.
  abbrev IsKept : Response × Sys W → Type 0
  IsKept (r, s) = r.success ≡ true → remembered env request s ≡ some (record_of r)

  remember-IsKept : (r : Response) (s : Sys W) → IsKept (remember env ctx peer request (r, true, s))
  unfolding remember stored_response
  remember-IsKept r s h =
      let c =
        cache env.codec (env.persist s.tick) request.request_id peer.uid
          (fingerprint env ctx peer request) r s.store in
      elim (Option-cases c.0) [
        | inr (e, failed) ↦ ground arith
        | inl fine ↦
            lookup-cache env.codec (env.persist s.tick) request.request_id peer.uid
              (fingerprint env ctx peer request) r s.store
            ∙ ap (λ x. some (record_of x)) (sym (ap (stored_response env ctx peer request r) fine))
      ]

  audited-IsKept :
      (r : Response) (o : Result String) (s : Sys W)
      → IsKept (remember env ctx peer request (audited_response env ctx peer request r (o, s)))
  unfolding audited_response remember
  audited-IsKept r (ok id) s = remember-IsKept (record r { audit_id = id }) s
  audited-IsKept r (err e) s = λ h. ground arith

  finish-IsKept : (p : Response × Sys W) → IsKept (finish env ctx peer request p)
  unfolding finish complete
  finish-IsKept (r, s) =
      let r' = set_version (set_request_id request.request_id r) in
      let audited = append_audit env peer request (event_of request r') s in
      if-both (λ (x : Response × Bool × Sys W). IsKept (remember env ctx peer request x))
        (r'.audit_id == "") (audited_response env ctx peer request r' audited) (r', true, s)
        (λ _. audited-IsKept r' audited.0 audited.1) (λ _. remember-IsKept r' s)

  cached-none :
      (s : Sys W)
      → remembered env request s ≡ none
      → cached request.request_id peer.uid (fingerprint env ctx peer request) s.store ≡ ok none
  unfolding cached
  cached-none s new = rw new refl

  -- If the service is set up, the deadline has not passed and nothing is kept for the request id,
  -- a response that tells a success is kept under that id, with the uid of the peer and the
  -- fingerprint of the bytes.
  pub handle-remembers :
      (s : Sys W)
      → IsServed env request s
      → remembered env request s ≡ none
      → (handle env ctx peer request s).0.success ≡ true
      → remembered env request (handle env ctx peer request s).1
        ≡ some (record {
          uid = peer.uid;
          fingerprint = fingerprint env ctx peer request;
          response = (handle env ctx peer request s).0;
        })
  unfolding answer
  handle-remembers s served new won =
      let s' = record s { tick = s.tick + 1 } in
      let is : handle env ctx peer request s
          ≡ finish env ctx peer request (dispatch env ctx peer request s') =
        handle-served env ctx peer request s served
        ∙ ap (λ c. answer env ctx peer request c s') (cached-none s new) in
      subst IsKept (sym is) (finish-IsKept (dispatch env ctx peer request s')) won
