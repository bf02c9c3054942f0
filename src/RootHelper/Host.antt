-- ===== src/RootHelper/Host.antt =====
-- The host that internal/roothelper/executor.go works on: the files by their paths, the calls of the
-- library `os` that the executor makes, and the commands that it runs. Each call may fail.
use pi_ops_agent.Base.{
  ℕ, ◌+◌, ◌*◌, ℤ, pos, negsuc, String, Bool, true, false, List, [], ◌∷◌, Option, none, some, Result,
  ok, err, take, string_eq,
}
use pi_ops_agent.Base.Dict.{Dict, lookup, insert, erase}
use pi_ops_agent.Protocol.Operations.{Error}

pub record File : Type 0 where
  pub content : List ℕ
  -- the permission bits, with setuid, setgid and sticky in front
  pub mode : ℕ
  pub uid : ℕ
  pub gid : ℕ

-- What stands at a path: a regular file, or a directory, link or device with what reading it gives.
pub data Node : Type 0 where
  regular : File → Node
  other : Result (List ℕ) → Node

pub record Command : Type 0 where
  pub program : String
  pub arguments : List String

-- The files that the executor names (not the directories that `MkdirAll` makes), the file under a
-- random name that `CreateTemp` made last, if it is still there, the number of calls made so far, and
-- the commands run, the newest first.
pub record Host : Type 0 where
  pub files : Dict String Node
  pub temporary : Option File
  pub tick : ℕ
  pub commands : List Command

-- What the outside answers to the call numbered `n`: the error of a system call, how many bytes a
-- copy, a write or a sync that fails leaves, where a program is found, and what a command prints, answers and does
-- to the files.
pub record System : Type 0 where
  pub fault : ℕ → Error
  pub partial : ℕ → ℕ
  pub look_path : ℕ → String → Result String
  pub output : ℕ → Command → Dict String Node → String
  pub exit : ℕ → Command → Dict String Node → Error
  pub effect : ℕ → Command → Dict String Node → Dict String Node

-- A step with an error as its other outcome.
abbrev pub Action : Type 0 → Type 0
Action A = Host → Result A × Host

module _ {A B : Type 0} where
  abbrev pub continue : Result A → (A → Action B) → Action B
  continue (ok a) f h = f a h
  continue (err e) f h = (err e, h)

  infixl 10 ◌>>=◌ ◌>>◌
  abbrev pub ◌>>=◌ : Action A → (A → Action B) → Action B
  ◌>>=◌ m f h = let r = m h in continue r.0 f r.1

  abbrev pub ◌>>◌ : Action A → Action B → Action B
  m >> n = m >>= λ _. n

module _ {A : Type 0} where
  abbrev pub pure : A → Action A
  pure a h = (ok a, h)

  abbrev pub fail : String → Action A
  fail e h = (err e, h)

  abbrev pub lift : Result A → Action A
  lift r h = (r, h)

abbrev pub result_of_error : Error → Result (Unit {0})
result_of_error none = ok tt
result_of_error (some e) = err e

abbrev pub error_of_result : {A : Type 0} → Result A → Error
error_of_result (ok a) = none
error_of_result (err e) = some e

-- An error is no failure of the step: `if err == nil { … } else { … }`
abbrev pub catch : {A : Type 0} → Action A → Action (Result A)
catch m h = let r = m h in (ok r.0, r.1)

abbrev pub not_exist : String
not_exist = "no such file or directory"

abbrev pub read_node : Option Node → Result (List ℕ)
read_node none = err not_exist
read_node (some (regular f)) = ok f.content
read_node (some (other r)) = r

abbrev pub must_exist : Option Node → Result (Unit {0})
must_exist none = err not_exist
must_exist (some node) = ok tt

-- A file that is opened anew keeps its mode and owner.
abbrev pub rewritten : Option Node → ℕ → List ℕ → Node
rewritten (some (regular f)) mode content = regular (record f { content = content })
rewritten _ mode content = regular (record { content = content; mode = mode; uid = 0; gid = 0 })

-- `uid_t` of `Chown`: a negative number leaves the owner.
abbrev pub owner : ℤ → ℕ
owner (pos n) = n
owner (negsuc n) = 0

abbrev pub is_owner : ℤ → Bool
is_owner (pos n) = true
is_owner (negsuc n) = false

abbrev pub edited : (File → File) → Option File → Option File
edited change none = none
edited change (some f) = some (change f)

module _ (sys : System) where
  -- A system call that only fails or succeeds.
  unfoldable pub system_call : Action (Unit {0})
  system_call h = (result_of_error (sys.fault h.tick), record h { tick = h.tick + 1 })

  unfoldable pub put_file : String → Node → Action (Unit {0})
  put_file path node h = (ok tt, record h { files = insert path node h.files })

  unfoldable pub node_at : String → Action (Option Node)
  node_at path h = (ok (lookup path h.files), h)

  -- `os.ReadFile`
  unfoldable pub read_file : String → Action (List ℕ)
  unfolding system_call node_at
  read_file path = do system_call; node ← node_at path; lift (read_node node)

  -- `os.WriteFile`: a failure may leave a part of the bytes.
  unfoldable pub write_file : String → List ℕ → ℕ → Action (Unit {0})
  unfolding system_call node_at put_file
  write_file path payload mode = do
    system_call
    node ← node_at path
    λ h. put_file path (rewritten node mode (take (sys.partial h.tick) payload)) h
    system_call
    put_file path (rewritten node mode payload)

  -- `os.Remove`
  unfoldable pub remove_file : String → Action (Unit {0})
  unfolding system_call node_at
  remove_file path = do
    system_call
    node ← node_at path
    lift (must_exist node)
    λ h. (ok tt, record h { files = erase path h.files })

  -- `os.CreateTemp`: an empty file of the process, which runs as root.
  unfoldable pub create_temporary : Action (Unit {0})
  unfolding system_call
  create_temporary = do
    system_call
    λ h. (
      ok tt,
      record h { temporary = some (record { content = []; mode = 6 * 64; uid = 0; gid = 0 }) },
    )

  -- A call on the temporary file: what it leaves of it if it fails, and if it succeeds.
  unfoldable pub edit_temporary : (File → File) → (File → File) → Action (Unit {0})
  edit_temporary failed fine h = elim (sys.fault h.tick) [
    | some e ↦ (err e, record h { temporary = edited failed h.temporary; tick = h.tick + 1 })
    | none ↦ (ok tt, record h { temporary = edited fine h.temporary; tick = h.tick + 1 })
  ]

  abbrev pub move_to : String → Option File → Action (Unit {0})
  move_to path none h = (err not_exist, h)
  move_to path (some f) h =
      (ok tt, record h { files = insert path (regular f) h.files; temporary = none })

  -- `os.Rename` of the temporary file to a path.
  unfoldable pub move_temporary : String → Action (Unit {0})
  unfolding system_call
  move_temporary path = do system_call; λ h. move_to path h.temporary h

  -- `defer os.Remove(name)`: its error is ignored.
  unfoldable pub remove_temporary : Host → Host
  remove_temporary h = elim (sys.fault h.tick) [
    | none ↦ record h { temporary = none; tick = h.tick + 1 }
    | some e ↦ record h { tick = h.tick + 1 }
  ]

  unfoldable pub removing_temporary : Action (Unit {0}) → Action (Unit {0})
  unfolding remove_temporary
  removing_temporary m h = let r = m h in (r.0, remove_temporary r.1)

  -- `exec.LookPath`
  unfoldable pub look_path : String → Action String
  look_path name h = (sys.look_path h.tick name, record h { tick = h.tick + 1 })

  -- `if path, err := exec.LookPath(name); err == nil { … } else { … }`
  unfoldable pub with_tool :
      {A : Type 0} → String → (String → Action A) → (String → Action A) → Action A
  unfolding look_path
  with_tool name found missing = do
    r ← catch (look_path name)
    elim r [ ok path ↦ found path | err e ↦ missing e ]

  -- `CommandRunner.Run`: what was printed, and the error.
  unfoldable pub run : String → List String → Action (String × Error)
  run program arguments h =
      let c : Command = record { program = program; arguments = arguments } in
      (
        ok (sys.output h.tick c h.files, sys.exit h.tick c h.files),
        record {
          files = sys.effect h.tick c h.files;
          temporary = h.temporary;
          tick = h.tick + 1;
          commands = c ∷ h.commands;
        },
      )

  -- `_, err := Run(…); return err`
  unfoldable pub run_only : String → List String → Action (Unit {0})
  unfolding run
  run_only program arguments = do answer ← run program arguments; lift (result_of_error answer.1)
