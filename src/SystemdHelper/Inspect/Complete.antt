-- ===== src/SystemdHelper/Inspect/Complete.antt =====
-- The host snapshot of internal/systemdhelper/service.go does not fail.
use pi_ops_agent.Base.{
  ◌≡◌, refl, inl, inr, arith, String, List, [], ◌∷◌, All, some, ok, Result-cases, Bool-cases, ◌==◌,
  string_eq,
}
use pi_ops_agent.Base.Dict.{Dict, lookup, insert, lookup-insert, lookup-insert_self}
use pi_ops_agent.RootHelper.Host.{System, Host, Action, pure, with_tool, look_path}
use pi_ops_agent.SystemdHelper.Inspect.{
  host_report, snapshot_commands, run_item, snapshot_from, take_snapshot,
}

abbrev pub Has : Dict String String → String → Type 0
Has results name = (entry : String) × (lookup name results ≡ some entry)

module _ (sys : System) where
  abbrev item_of : String → List String → Action String
  item_of name arguments = with_tool sys name (run_item sys arguments) (λ e. pure "unavailable")

  item_of-ok :
      (name : String) (arguments : List String) (h : Host)
      → (entry : String) × ((item_of name arguments h).0 ≡ ok entry)
  unfolding with_tool look_path run_item
  item_of-ok name arguments h = elim (Result-cases (sys.look_path h.tick name)) [
    | inl (path, there) ↦ rw there (_, refl)
    | inr (e, missing) ↦ rw missing (_, refl)
  ]

  Has-insert :
      (name k entry : String) (d : Dict String String) → Has d k → Has (insert name entry d) k
  Has-insert name k entry d (old, there) = elim (Bool-cases (name == k)) [
    | inl same ↦ (entry, ground (arith, lookup-insert k name entry d))
    | inr differs ↦ (old, ground (arith, lookup-insert k name entry d))
  ]

  snapshot_from-Has :
      (items : List (String × List String)) (results : Dict String String) (h : Host)
      → (d : Dict String String) × ((snapshot_from sys items results h).0 ≡ ok d)
        × ((k : String) → Has results k → Has d k)
        × All (λ item. Has d item.0) items
  unfolding snapshot_from
  snapshot_from-Has [] results h = (results, refl, λ k has. has, tt)
  snapshot_from-Has ((name, arguments) ∷ items) results h =
      let (entry, fine) = item_of-ok name arguments h in
      let (d, done, keeps, all) =
        snapshot_from-Has items (insert name entry results) (item_of name arguments h).1 in
      (
        d,
        rw fine done,
        λ k has. keeps k (Has-insert name k entry results has),
        (keeps name (entry, lookup-insert_self name entry results), all),
      )

  -- `HostSnapshot` never fails, whichever programs are missing or fail, and its report has an
  -- entry for each of its commands.
  pub take_snapshot-Has :
      (h : Host)
      → (d : Dict String String) × ((take_snapshot sys h).0 ≡ ok (host_report d))
        × All (λ item. Has d item.0) snapshot_commands
  unfolding take_snapshot
  take_snapshot-Has h =
      let (d, done, _, all) = snapshot_from-Has snapshot_commands [] h in (d, rw done refl, all)
