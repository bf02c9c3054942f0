-- ===== src/RootHelper/Command/Output/Examples.antt =====
-- Runs of `limitedBuffer` and `safeUnitFragment` of internal/roothelper/executor.go.
use pi_ops_agent.Base.{◌≡◌, refl, false, [], ◌∷◌}
use pi_ops_agent.Protocol.Pattern.{codes}
use pi_ops_agent.RootHelper.Command.{safe_unit_fragment}
use pi_ops_agent.RootHelper.Command.Output.{write_all, empty, write_all-concat}

two_pieces :
    write_all (codes "out" ∷ codes "err" ∷ []) empty
    ≡ record { payload = codes "outerr"; truncated = false }
two_pieces = write_all-concat (codes "out" ∷ codes "err" ∷ [])

unit_name : safe_unit_fragment "change-01/../x" ≡ "change-01x"
unfolding safe_unit_fragment
unit_name = refl
