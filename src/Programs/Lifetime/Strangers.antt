-- ===== src/Programs/Lifetime/Strangers.antt =====
-- What those can bring about who are not the approver, over all their connections to the root helper.
use pi_ops_agent.Base.{◌≡◌, ◌≢◌, arith, false, List, [], All, ok}
use pi_ops_agent.Protocol.{Request}
use pi_ops_agent.RootHelper.Change.{Credential, request_scope}
use pi_ops_agent.RootHelper.Machine.{Env, Sys}
use pi_ops_agent.RootHelper.Service.{is_approver}
use pi_ops_agent.RootHelper.Spec.{view}
use pi_ops_agent.RootHelper.Spec.Authority.{IsHarmless, IsHarmless-refl, IsHarmless-trans}
use pi_ops_agent.RootHelper.Refine.Handle.{ReadsBack}
use pi_ops_agent.RootHelper.Refine.Fresh.{IsFresh, IsDistinct}
use pi_ops_agent.RootHelper.Guarantees.{handle-IsHarmless}
use pi_ops_agent.RpcServer.Connections.{Happening, serve_connections}
use pi_ops_agent.RpcServer.Connections.Kept.{IsFrom, serve_connections-kept}
use pi_ops_agent.Programs.{RootFlags, Disk, uint32, env_of, start_root}
use pi_ops_agent.Programs.Started.{start_root-IsStarted}
use pi_ops_agent.Programs.Lifetime.{IsSafe, serve_request, serve_request-IsSafe, IsStarted-IsSafe}

module _ {W : Type 0} (env : Env W) (f : RootFlags) (disk : Disk) (w : W) (s : Sys W) where
  -- The state of the service when only strangers have connected, next to that at the start.
  record IsUntouched (t : Sys W) : Type 0 where
    safe : IsSafe (env_of env f) t
    harmless : IsHarmless (view s) (view t)

  abbrev pub IsStranger : Credential → Type 0
  IsStranger peer = peer.uid ≢ uint32 f.approver_uid

  IsStranger-is_approver :
      (peer : Credential) → IsStranger peer → is_approver (env_of env f) peer.uid ≡ false
  unfolding is_approver
  IsStranger-is_approver peer stranger = ground arith

  serve_request-IsUntouched :
      (reads : (r : Request) → ReadsBack (env_of env f) r)
      → IsDistinct (env_of env f)
      → (peer : Credential) (request : Request) (t : Sys W) → IsStranger peer
      → IsUntouched t
      → IsUntouched (serve_request (env_of env f) peer request t).1
  serve_request-IsUntouched reads distinct peer request t stranger h = record {
    safe = serve_request-IsSafe (env_of env f) reads distinct peer request t h.safe;
    harmless = IsHarmless-trans (view s) (view t) _ h.harmless (
        handle-IsHarmless (env_of env f) (request_scope request.deadline) peer request
          (reads request) t h.safe.sound h.safe.fresh (IsStranger-is_approver peer stranger));
  }

  -- Let every valid operation be read back as it was written, no random id be drawn twice, and
  -- those still to be drawn at the start not be those of changes. Once the root helper has
  -- started, whatever bytes peers other than the approver send over whichever connections, and in
  -- whatever order these make their turns, every change is as it was at the start, changes that
  -- are added are pending approval, and `Prepare`, `Execute`, `Verify` and `Rollback` are not
  -- called.
  pub strangers-IsHarmless :
      (happenings : List Happening)
      → start_root env f disk w ≡ ok s
      → ((r : Request) → ReadsBack (env_of env f) r)
      → IsDistinct (env_of env f)
      → IsFresh (env_of env f) s
      → All (IsFrom IsStranger) happenings
      → IsHarmless
          (view s)
          (view (serve_connections (serve_request (env_of env f)) happenings ([], s)).1)
  strangers-IsHarmless happenings started reads distinct fresh strangers =
      (serve_connections-kept (serve_request (env_of env f)) {Q = IsStranger} {P = IsUntouched}
        (serve_request-IsUntouched reads distinct) happenings s strangers
        (record {
          safe =
              IsStarted-IsSafe env f disk w s (start_root-IsStarted env f disk w s started) fresh;
          harmless = IsHarmless-refl (view s);
        })).harmless
