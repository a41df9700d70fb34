-- ===== src/Command/Tests.antt =====
-- The theorems about the rule table at concrete inputs, and runs of the code.
use mathlib.Core.List.{Memᴰ}
use fylane.Common.{◌≡◌, refl, sym, ◌∙◌, ◌≢◌, ◌↔◌, true, false, List, [], ◌∷◌, All}
use fylane.Common.Text.{Text, codes, text_beq, has_byte, text_eq, split_on}
use fylane.Common.Paths.{walk, join, clean, is_abs, join_words}
use fylane.Common.Paths.Walk.{IsPlain, rooted_path}
use fylane.Command.Shells.{in_set}
use fylane.Command.Line.{Request, parse, path_args, outside_workspace, normalize_prog, abs}
use fylane.Command.Lexical.{Under, target, outside_workspace_iff}
use fylane.Command.Rules.{
  deleters, escalates, names_a_shell, builds_command_lines, writes_devices, git_internals,
  deletes_root, deletes_outside, reads_credentials, touches_outside, reads_machine_state,
  recursive_delete, discards_work, rewrites_history, leaves_machine, widens_permissions,
  changes_machine, runs_nested,
}
use fylane.Command.Check.{block, disclose, allow, Decision, check, allowed}
use fylane.Command.Safety.{check_delete_outside}

abbrev root_words : List Text
root_words = codes "home" ∷ codes "me" ∷ []

abbrev in_dir : List Text → Request
in_dir argv = record { argv = argv; root = codes "/home/me"; dir = codes "src" }

-- cat ../../x, from the directory src
abbrev reads_above : Request
reads_above = in_dir (codes "cat" ∷ codes "../../x" ∷ [])

abbrev deletes_above : Request
deletes_above = in_dir (codes "rm" ∷ codes "../../x" ∷ [])

abbrev above : Text
above = codes "../../x"

root_words-IsPlain : All IsPlain root_words
unfolding text_beq has_byte
root_words-IsPlain = (
  record { some_byte = refl; not_dot = refl; not_dot_dot = refl; no_slash = refl },
  (record { some_byte = refl; not_dot = refl; not_dot_dot = refl; no_slash = refl }, tt),
)

root_path : codes "/home/me" ≡ rooted_path root_words
unfolding join_words
root_path = refl

-- The words that the path leads to: /home/x.
above-target : target root_words (codes "src") above ≡ codes "home" ∷ codes "x" ∷ []
unfolding is_abs split_on walk text_beq
above-target = refl

above_escapes : ¬ Under root_words (target root_words (codes "src") above)
above_escapes (rest, e) =
    let h : codes "home" ∷ codes "x" ∷ [] ≡ codes "home" ∷ codes "me" ∷ rest =
      sym above-target ∙ e in
    cc

outside_workspace_iff_example :
    (outside_workspace (parse reads_above) above ≡ false)
    ↔ Under root_words (target root_words (codes "src") above)
unfolding parse
outside_workspace_iff_example =
    outside_workspace_iff (parse reads_above) root_words above (λ e. cc) (λ e. cc)
      root_words-IsPlain root_path

named_to_delete : Memᴰ above (path_args (parse deletes_above))
unfolding parse path_args text_beq
named_to_delete = Memᴰ.head refl

rm_named : (parse deletes_above).prog ≢ []
unfolding parse split_on text_beq
rm_named e = cc

rm_deletes : in_set (parse deletes_above).prog deleters ≡ true
unfolding parse in_set split_on text_beq
rm_deletes = refl

check_delete_outside_example : (check deletes_above).verdict ≡ block
check_delete_outside_example =
    check_delete_outside deletes_above root_words above rm_deletes rm_named (λ e. cc)
      root_words-IsPlain root_path named_to_delete (λ e. cc) above_escapes

-- A program whose file is named `.exe` has no name left once the suffix is cut: no rule is asked.
bare_exe :
    check (record { argv = codes "./.exe" ∷ codes "/etc/passwd" ∷ []; root = codes "/w"; dir = [] })
    ≡ allowed
unfolding check parse text_beq split_on
bare_exe = refl

-- The whole table, open, for the runs below.
run : Request → Decision
unfolding check text_beq abs is_abs join clean escalates names_a_shell builds_command_lines
    writes_devices git_internals deletes_root deletes_outside reads_credentials touches_outside
    reads_machine_state recursive_delete discards_work rewrites_history leaves_machine
    widens_permissions changes_machine runs_nested
run req = check req

reads_above_discloses : (run reads_above).verdict ≡ disclose
unfolding run
reads_above_discloses = refl

tests_run : (run (in_dir (codes "go" ∷ codes "test" ∷ codes "./..." ∷ []))).verdict ≡ allow
unfolding run
tests_run = refl

force_push_asks :
    (run (in_dir (codes "git" ∷ codes "push" ∷ codes "-f" ∷ []))).rule
    ≡ "rewrites-published-history"
unfolding run
force_push_asks = refl

hidden_shell : (run (in_dir (codes "env" ∷ codes "bash" ∷ []))).rule ≡ "shell-in-arguments"
unfolding run
hidden_shell = refl

windows_name : normalize_prog (codes "C:\\tools\\RM.EXE") ≡ codes "rm"
unfolding normalize_prog split_on text_beq
windows_name = refl

-- npm.cmd is the name of npm on Windows: the suffix stays, and the rule for publishing is passed.
npm_cmd_publishes : (run (in_dir (codes "npm.cmd" ∷ codes "publish" ∷ []))).verdict ≡ allow
unfolding run
npm_cmd_publishes = refl
