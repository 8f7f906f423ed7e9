-- ===== src/Traci/Launcher.antt =====
-- src/traci/PosixLauncher.cpp, as the process sees it that launches SUMO. The outcomes of the calls
-- of POSIX are arguments, and the calls of kill and waitpid are listed. `replace` is
-- std::regex_replace with a pattern that is a plain text: text, pattern, replacement.
use cosidia.Prelude.{
  ℤ, pos, eqb_ℤ, ltb_ℤ, ℕ, ◌==◌, Bool, true, false, Option, none, some, List, [], ◌∷◌, ◌++◌, String,
  if◌then◌else◌,
}
use cosidia.Prelude.Result.{Result, ok, err, runtime_error}
use mathlib.Core.Option.{get_or}

-- The entries of the configuration that the launcher reads.
pub record LauncherConfig : Type 0 where
  pub sumo : Option String
  pub command : Option String
  pub sumocfg : Option String
  pub port : Option ℕ

pub record Launcher : Type 0 where
  pub executable : String
  pub command : String
  pub sumocfg : String
  pub port : ℕ
  pub seed : ℕ
  pub pid : ℤ
  pub killed : List ℤ
  pub waited_for : List ℤ

pub record ServerEndpoint : Type 0 where
  pub hostname : String
  pub port : ℕ
  pub retry : Bool

-- `seed` is what the memory holds, since the constructor does not set it.
unfoldable pub initialize : LauncherConfig → (seed : ℕ) → Result Launcher
initialize config seed = elim config.sumocfg [
  | none ↦ err (runtime_error "sumocfg option has not been set")
  | some sumocfg ↦ ok (record {
    executable = get_or config.sumo "sumo";
    command =
        get_or config.command
          "%SUMO% --remote-port %PORT% --seed %SEED% --configuration-file %SUMOCFG% --message-log sumo-%RUN%.log --no-step-log --quit-on-end --start";
    sumocfg = sumocfg;
    port = get_or config.port 0;
    seed = seed;
    pid = pos 0;
    killed = [];
    waited_for = [];
  })
]

-- `free_port` is what lookupPort finds, `forked` what fork returns to this process, and `grouped`
-- whether setpgid succeeds or the child has run its program already.
unfoldable pub launch :
    (free_port : ℕ) (forked : ℤ) (grouped : Bool) → Launcher → Result (ServerEndpoint × Launcher)
launch free_port forked grouped l =
    let port = if l.port == 0 then free_port else l.port in
    let endpoint : ServerEndpoint = record { hostname = "localhost"; port = port; retry = true } in
    elim (ltb_ℤ forked (pos 0)) [
      | true ↦ err (runtime_error "fork() failed")
      | false ↦ elim grouped [
        | false ↦ err (runtime_error "setpgid() failed")
        | true ↦ ok (endpoint, record l { port = port; pid = forked })
      ]
    ]

-- The wait comes after the reset of the process id.
unfoldable pub kill : Launcher → Launcher
kill l =
    let l' =
      if eqb_ℤ l.pid (pos 0)
      then l
      else record l { killed = l.killed ++ l.pid ∷ []; pid = pos 0 } in
    record l' { waited_for = l'.waited_for ++ l'.pid ∷ [] }

unfoldable pub command_line :
    (replace : String → String → String → String) (to_string : ℕ → String) → Launcher → String
command_line replace to_string l =
    let c1 = replace l.command "%SUMO%" l.executable in
    let c2 = replace c1 "%SUMOCFG%" l.sumocfg in
    let c3 = replace c2 "%PORT%" (to_string l.port) in
    let c4 = replace c3 "%SEED%" (to_string l.seed) in replace c4 "%RUN%" "1"
