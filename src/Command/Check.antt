-- ===== src/Command/Check.antt =====
-- companion/internal/cmdrule/cmdrule.go: the three tiers, and Check, which walks them.
use Prim.Native.String.{String}
use fylane.Common.{List, [], ◌∷◌, if◌then◌else◌, ◌==◌, Option, none, some}
use fylane.Common.Text.{text_eq}
use fylane.Command.Line.{Request, Cmdline, parse}
use fylane.Command.Rules.{
  Rule, escalates, names_a_shell, builds_command_lines, writes_devices, git_internals, deletes_root,
  deletes_outside, reads_credentials, touches_outside, reads_machine_state, recursive_delete,
  discards_work, rewrites_history, leaves_machine, widens_permissions, changes_machine, runs_nested,
}

pub data Verdict : Type 0 where
  allow confirm disclose block : Verdict

pub record Decision : Type 0 where
  pub verdict : Verdict
  pub rule : String
  pub reason : String

abbrev pub block_rules : List Rule
block_rules =
    record {
      id = "privilege-escalation";
      reason = "runs the command as another user, outside anything the workspace can bound";
      match = escalates;
    }
    ∷ record {
      id = "shell-in-arguments";
      reason =
          "an argument names a shell interpreter, which would bring back the shell grammar the engine refuses";
      match = names_a_shell;
    }
    ∷ record {
      id = "builds-command-lines";
      reason = "constructs and runs command lines of its own, which this table cannot inspect";
      match = builds_command_lines;
    }
    ∷ record {
      id = "raw-device-access";
      reason = "writes to disks or devices rather than to files";
      match = writes_devices;
    }
    ∷ record {
      id = "git-internals";
      reason = "modifies git's own object store, which corrupts history rather than changing it";
      match = git_internals;
    }
    ∷ record {
      id = "delete-workspace-root";
      reason = "deletes the workspace itself";
      match = deletes_root;
    }
    ∷ record {
      id = "delete-outside-workspace";
      reason = "deletes a path outside the workspace";
      match = deletes_outside;
    }
    ∷ []

abbrev pub disclose_rules : List Rule
disclose_rules =
    record {
      id = "reads-credential-store";
      reason =
          "reads where this machine keeps its secrets — environment variables and the keychain are the store itself, not a report about the machine";
      match = reads_credentials;
    }
    ∷ record {
      id = "touches-outside-workspace";
      reason = "names a path outside the workspace, which is the boundary the caller was given";
      match = touches_outside;
    }
    ∷ []

abbrev pub confirm_rules : List Rule
confirm_rules =
    record {
      id = "reads-machine-state";
      reason =
          "reports the state of this whole machine rather than of the workspace, and command lines routinely carry credentials";
      match = reads_machine_state;
    }
    ∷ record {
      id = "recursive-delete";
      reason = "removes a directory and everything under it";
      match = recursive_delete;
    }
    ∷ record {
      id = "discards-uncommitted-work";
      reason = "throws away uncommitted changes, which no backup in this tool can restore";
      match = discards_work;
    }
    ∷ record {
      id = "rewrites-published-history";
      reason = "force-pushes, which overwrites history other people may already have";
      match = rewrites_history;
    }
    ∷ record {
      id = "leaves-this-machine";
      reason = "sends code or artifacts to a remote, which cannot be undone locally";
      match = leaves_machine;
    }
    ∷ record {
      id = "widens-permissions";
      reason = "changes file permissions or ownership";
      match = widens_permissions;
    }
    ∷ record {
      id = "changes-the-machine";
      reason =
          "installs software, or schedules work that outlives this session, outside this workspace";
      match = changes_machine;
    }
    ∷ record {
      id = "runs-a-nested-command";
      reason = "runs another command per match, which this table judges only as a whole";
      match = runs_nested;
    }
    ∷ []

-- The inner loop: the first rule of a tier that matches.
unfoldable pub first_match : Verdict → Cmdline → List Rule → Option Decision
first_match v c [] = none
first_match v c (r ∷ rules) =
    if r.match c
    then some (record { verdict = v; rule = r.id; reason = r.reason })
    else first_match v c rules

abbrev pub or_else : Option Decision → Decision → Decision
or_else none d = d
or_else (some d) _ = d

abbrev pub allowed : Decision
allowed = record { verdict = allow; rule = ""; reason = "" }

-- The tiers in descending severity, over a parsed argv.
unfoldable pub judge : Cmdline → Decision
unfolding first_match
judge c = or_else (first_match block c block_rules) (
    or_else (first_match disclose c disclose_rules)
      (or_else (first_match confirm c confirm_rules) allowed))

unfoldable pub check : Request → Decision
unfolding judge parse
check req = let c = parse req in if c.prog == [] then allowed else judge c
