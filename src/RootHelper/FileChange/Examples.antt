-- ===== src/RootHelper/FileChange/Examples.antt =====
-- A file change on a concrete host: prepared, executed and rolled back, with and without failures.
use pi_ops_agent.Base.{
  arith, ℕ, zero, suc, ℤ, pos, negsuc, ◌≡◌, ◌≢◌, refl, String, Bool, true, false, List, [], ◌∷◌,
  none, some, Result, ok, err, ◌==◌, ==_iff, string_eq, nat_eq, if◌then◌else◌,
}
use pi_ops_agent.Base.Dict.{lookup, insert}
use pi_ops_agent.Protocol.Pattern.{codes}
use pi_ops_agent.Protocol.Operations.{FileWrite, Error}
use pi_ops_agent.RootHelper.Change.{ExecutionResult}
use pi_ops_agent.RootHelper.Host.{File, regular, other, Host, System}
use pi_ops_agent.RootHelper.FileChange.{
  FileRollback, FileCodec, blank, prepared, prepare_file, execute_file, rollback_file, restore_file,
  copy_out, atomic_replace, parse_octal,
}
use pi_ops_agent.RootHelper.FileChange.Calls.{at}
use pi_ops_agent.RootHelper.FileChange.Backup.{rollback_of, restored}
use pi_ops_agent.RootHelper.FileChange.Undone.{rollback_file_undoes}

-- The call numbered `broken` fails; the others succeed.
abbrev failing_at : ℕ → System
failing_at broken = record {
  fault = λ n. if n == broken then some "input/output error" else none;
  partial = λ _. 1;
  look_path = λ _ _. err "not found";
  output = λ _ _ _. "";
  exit = λ _ _ _. none;
  effect = λ _ _ files. files;
}

abbrev flag : Bool → ℕ
flag true = 1
flag false = 0

abbrev number : ℤ → ℕ
number (pos n) = n
number (negsuc n) = 0

abbrev printed : FileRollback → List ℕ
printed r = flag r.existed ∷ r.mode ∷ number r.uid ∷ number r.gid ∷ codes r.backup_path

abbrev parsed : List ℕ → Result FileRollback
parsed (suc zero ∷ mode ∷ uid ∷ gid ∷ rest) = ok (record {
  existed = true;
  backup_path = "/state/changes/c1/file.backup";
  mode = mode;
  uid = pos uid;
  gid = pos gid;
})
parsed (zero ∷ rest) = ok blank
parsed _ = err "unexpected end of JSON input"

abbrev codec : FileCodec
codec = record { rollback_json = printed; parse_rollback = parsed; bytes = codes; sha256 = λ s. s }

abbrev anything : String → Host → Error
anything path h = none

abbrev target : File
target = record { content = 1 ∷ 2 ∷ 3 ∷ []; mode = 2480; uid = 7; gid = 8 }

abbrev host : Host
host = record {
  files = ("/srv/a", regular target) ∷ ("/srv/b", other (err "is a directory")) ∷ [];
  temporary = none;
  tick = 0;
  commands = [];
}

abbrev change : FileWrite
change = record { operation_kind = "file.write"; path = "/srv/a"; content = "new"; mode = "0640" }

abbrev result : ExecutionResult
result = prepared codec (rollback_of "/state/changes/c1/file.backup" (some (regular target)))

backed_up : ℕ → Host
unfolding string_eq nat_eq lookup insert prepare_file copy_out
backed_up broken = (prepare_file (failing_at broken) codec "/state" anything "c1" change host).1

executed : ℕ → Result (Unit {0}) × Host
unfolding backed_up execute_file atomic_replace
executed broken =
    execute_file (failing_at broken) codec "/state" anything change result (backed_up broken)

prepared_ok : (prepare_file (failing_at 99) codec "/state" anything "c1" change host).0 ≡ ok result
unfolding prepare_file nat_eq lookup string_eq copy_out
prepared_ok = refl

replaced :
    at "/srv/a" (executed 99).1
    ≡ some (regular (record { content = codes "new"; mode = 416; uid = 7; gid = 8 }))
unfolding executed
replaced = refl

undone : Result (Unit {0}) × Host
unfolding executed rollback_file restore_file
undone = rollback_file (failing_at 99) codec "/state" anything change result (executed 99).1

-- Where the rename fails nothing has changed; where the last sync fails the file is in its place.
kept_and_put :
    (at "/srv/a" (executed 13).1 ≡ at "/srv/a" host)
    × ((executed 13).0 ≡ err "input/output error")
    × ((executed 15).0 ≡ err "input/output error")
    × (at "/srv/a" (executed 15).1 ≡ at "/srv/a" (executed 99).1)
unfolding executed
kept_and_put = (refl, refl, refl, refl)

-- The setgid bit of the mode 4660 is gone after the rollback, and "4755" is read as it is written.
bits_lost :
    (at "/srv/a" undone.1 ≡ some (regular (record target { mode = 432 })))
    × (parse_octal "4755" ≡ ok 2541)
unfolding undone parse_octal
bits_lost = (refl, refl)

abbrev kept_at : String
kept_at = "/state/changes/c1/file.backup"

apart : kept_at ≢ "/srv/a"
unfolding string_eq
apart e =
    let same = (==_iff kept_at "/srv/a").1 e in
    let other : (kept_at == "/srv/a") ≡ false = refl in ground (arith, same, other)

rollback_file_undoes_example :
    (at "/srv/a" undone.1 ≡ restored (at "/srv/a" host))
    × ((path : String)
        → "/srv/a" ≢ path
        → "/state/changes/c1/file.backup" ≢ path
        → at path undone.1 ≡ at path host)
unfolding undone
rollback_file_undoes_example =
    rollback_file_undoes (failing_at 99) codec "/state" anything "c1" change host result refl refl
      apart refl
