-- ===== src/Command/Rules.antt =====
-- companion/internal/cmdrule/cmdrule.go: the rule table, tier by tier. Each rule is its test; the
-- tables pair it with its identifier and its sentence.
use Prim.Native.String.{String}
use fylane.Common.{Bool, true, false, ◌&&◌, ◌||◌, not, List, [], ◌∷◌, if◌then◌else◌, any, ◌==◌}
use fylane.Common.Text.{Text, codes, text_eq, has_prefix, split_on, equal_fold}
use fylane.Common.Paths.{slash}
use fylane.Command.Shells.{in_set, spells_a_shell}
use fylane.Command.Line.{
  Cmdline, slashed, sub, sub_arg, execs_a_program, has_short_opt, has_long_opt, path_args,
  outside_workspace, is_workspace_root, uploads_a_file, contains_arg,
}

pub record Rule : Type 0 where
  pub id : String
  pub reason : String
  pub match : Cmdline → Bool

unfoldable pub escalates : Cmdline → Bool
unfolding in_set
escalates c = in_set c.prog ("sudo" ∷ "doas" ∷ "su" ∷ "runas" ∷ "pkexec" ∷ "gsudo" ∷ [])

unfoldable pub names_a_shell : Cmdline → Bool
unfolding spells_a_shell
names_a_shell c = spells_a_shell c.argv

unfoldable pub builds_command_lines : Cmdline → Bool
unfolding in_set
builds_command_lines c = in_set c.prog ("xargs" ∷ "parallel" ∷ [])

unfoldable pub writes_devices : Cmdline → Bool
unfolding in_set has_prefix
writes_devices c =
    in_set c.prog
      ("fdisk" ∷ "sfdisk" ∷ "parted" ∷ "diskutil" ∷ "mkswap" ∷ "wipefs" ∷ "badblocks" ∷ [])
    || has_prefix c.prog (codes "mkfs")
    || (c.prog == codes "dd" && any (λ a. has_prefix a (codes "of=")) c.args)

abbrev pub mutators : List String
mutators =
    "rm" ∷ "rmdir" ∷ "unlink" ∷ "mv" ∷ "cp" ∷ "chmod" ∷ "chown" ∷ "chgrp" ∷ "ln" ∷ "tee" ∷ "install"
    ∷ "truncate" ∷ "touch" ∷ "mkdir" ∷ "dd" ∷ "rsync" ∷ []

abbrev pub enters_git : Text → Bool
enters_git p = any (λ word. equal_fold word (codes ".git")) (split_on slash (slashed p))

unfoldable pub git_internals : Cmdline → Bool
unfolding in_set path_args equal_fold split_on slashed
git_internals c = in_set c.prog mutators && any enters_git (path_args c)

abbrev pub deleters : List String
deleters = "rm" ∷ "rmdir" ∷ "unlink" ∷ "shred" ∷ []

unfoldable pub deletes_root : Cmdline → Bool
unfolding in_set path_args is_workspace_root
deletes_root c = in_set c.prog deleters && any (is_workspace_root c) (path_args c)

unfoldable pub deletes_outside : Cmdline → Bool
unfolding in_set path_args outside_workspace
deletes_outside c = in_set c.prog deleters && any (outside_workspace c) (path_args c)

unfoldable pub reads_credentials : Cmdline → Bool
unfolding in_set execs_a_program
reads_credentials c =
    if in_set c.prog ("printenv" ∷ "security" ∷ "dscl" ∷ "defaults" ∷ [])
    then true
    else if c.prog == codes "env"
    then not (execs_a_program c)
    else false

unfoldable pub touches_outside : Cmdline → Bool
unfolding path_args outside_workspace
touches_outside c = any (outside_workspace c) (path_args c)

unfoldable pub reads_machine_state : Cmdline → Bool
unfolding in_set sub
reads_machine_state c =
    if in_set c.prog (
      "ps" ∷ "top" ∷ "htop" ∷ "pgrep" ∷ "pidof" ∷ "lsof" ∷ "netstat" ∷ "ss" ∷ "ioreg" ∷ "dmesg"
      ∷ "journalctl" ∷ "last" ∷ [])
    then true
    else if in_set c.prog ("launchctl" ∷ "systemctl" ∷ "service" ∷ "sc" ∷ [])
    then in_set (sub c) (
        "list" ∷ "list-units" ∷ "list-unit-files" ∷ "status" ∷ "show" ∷ "print" ∷ "dumpstate"
        ∷ "query" ∷ [])
    else false

unfoldable pub recursive_delete : Cmdline → Bool
unfolding in_set has_short_opt has_long_opt
recursive_delete c =
    in_set c.prog ("rm" ∷ "rmdir" ∷ [])
    && (has_short_opt b'r' c || has_short_opt b'R' c || has_long_opt "recursive" c)

unfoldable pub is_forced : Cmdline → Bool
unfolding has_short_opt has_long_opt
is_forced c = has_short_opt b'f' c || has_long_opt "force" c

unfoldable pub discards_work : Cmdline → Bool
unfolding in_set sub sub_arg has_long_opt is_forced
discards_work c =
    if not (c.prog == codes "git")
    then false
    else if sub c == codes "reset"
    then has_long_opt "hard" c
    else if sub c == codes "clean"
    then is_forced c
    else if in_set (sub c) ("checkout" ∷ "switch" ∷ "restore" ∷ [])
    then is_forced c
    else if sub c == codes "stash"
    then in_set (sub_arg 1 c) ("drop" ∷ "clear" ∷ [])
    else false

unfoldable pub rewrites_history : Cmdline → Bool
unfolding sub is_forced has_long_opt
rewrites_history c =
    c.prog == codes "git"
    && sub c == codes "push"
    && (is_forced c || has_long_opt "force-with-lease" c)

unfoldable pub leaves_machine : Cmdline → Bool
unfolding in_set sub sub_arg uploads_a_file contains_arg
leaves_machine c =
    if in_set c.prog ("curl" ∷ "wget" ∷ "http" ∷ "https" ∷ "xh" ∷ [])
    then uploads_a_file c
    else if in_set c.prog ("nc" ∷ "ncat" ∷ "netcat" ∷ "socat" ∷ "telnet" ∷ [])
    then true
    else if c.prog == codes "git"
    then sub c == codes "push"
    else if in_set c.prog ("npm" ∷ "pnpm" ∷ "yarn" ∷ "bun" ∷ [])
    then sub c == codes "publish"
    else if in_set c.prog ("cargo" ∷ "poetry" ∷ "gem" ∷ [])
    then in_set (sub c) ("publish" ∷ "push" ∷ [])
    else if c.prog == codes "twine"
    then sub c == codes "upload"
    else if in_set c.prog ("docker" ∷ "podman" ∷ [])
    then sub c == codes "push"
    else if in_set c.prog ("gh" ∷ "glab" ∷ [])
    then sub c == codes "release" && in_set (sub_arg 1 c) ("create" ∷ "upload" ∷ "delete" ∷ [])
    else if in_set c.prog ("ssh" ∷ "scp" ∷ "sftp" ∷ "rsync" ∷ [])
    then true
    else if c.prog == codes "mvn"
    then contains_arg c.args ("deploy" ∷ [])
    else if c.prog == codes "dotnet"
    then sub c == codes "nuget" && sub_arg 1 c == codes "push"
    else in_set c.prog (
        "aws" ∷ "gcloud" ∷ "az" ∷ "kubectl" ∷ "terraform" ∷ "flyctl" ∷ "vercel" ∷ "netlify"
        ∷ "wrangler" ∷ [])

unfoldable pub widens_permissions : Cmdline → Bool
unfolding in_set
widens_permissions c =
    in_set c.prog ("chmod" ∷ "chown" ∷ "chgrp" ∷ "setfacl" ∷ "icacls" ∷ "takeown" ∷ [])

unfoldable pub changes_machine : Cmdline → Bool
unfolding in_set sub has_short_opt has_long_opt
changes_machine c =
    if in_set c.prog ("crontab" ∷ "at" ∷ "batch" ∷ [])
    then not (has_short_opt b'l' c)
    else if c.prog == codes "schtasks"
    then true
    else if in_set c.prog ("npm" ∷ "pnpm" ∷ "yarn" ∷ "bun" ∷ [])
    then in_set (sub c) ("install" ∷ "add" ∷ "i" ∷ "uninstall" ∷ "remove" ∷ [])
      && (has_short_opt b'g' c || has_long_opt "global" c || has_long_opt "location=global" c)
    else if in_set c.prog (
        "brew" ∷ "apt" ∷ "apt-get" ∷ "yum" ∷ "dnf" ∷ "pacman" ∷ "apk" ∷ "choco" ∷ "winget" ∷ "scoop"
        ∷ "port" ∷ [])
    then true
    else if in_set c.prog ("pipx" ∷ "gem" ∷ [])
    then in_set (sub c) ("install" ∷ "uninstall" ∷ [])
    else if c.prog == codes "cargo"
    then in_set (sub c) ("install" ∷ "uninstall" ∷ [])
    else if c.prog == codes "go"
    then sub c == codes "install"
    else in_set c.prog ("rustup" ∷ "nvm" ∷ "asdf" ∷ "systemctl" ∷ "launchctl" ∷ "sc" ∷ [])

unfoldable pub runs_nested : Cmdline → Bool
unfolding contains_arg
runs_nested c =
    if not (c.prog == codes "find")
    then false
    else contains_arg c.args ("-exec" ∷ "-execdir" ∷ "-ok" ∷ "-okdir" ∷ [])
