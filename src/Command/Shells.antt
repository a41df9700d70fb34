-- ===== src/Command/Shells.antt =====
-- companion/internal/cmdexec/cmdexec.go and launcher.go: does an argv reach a shell?
use Prim.Native.String.{String}
use fylane.Common.{ℕ, Bool, true, false, List, [], ◌∷◌, ◌||◌, if◌then◌else◌, length, take, ◌-◌, any}
use fylane.Common.Text.{Text, codes, text_beq, replace_byte, to_lower, trim_space, has_suffix}
use fylane.Common.Paths.{base, slash}

abbrev pub backslash : ℕ
backslash = 92

-- Is the text one of the names?
unfoldable pub in_set : Text → List String → Bool
in_set v [] = false
in_set v (s ∷ names) = text_beq v (codes s) || in_set v names

-- path.Ext is the text from the last dot of a name; the three suffixes hold no other dot.
unfoldable pub drop_ext : Text → Text
unfolding has_suffix
drop_ext name =
    if has_suffix name (codes ".exe")
      || has_suffix name (codes ".cmd")
      || has_suffix name (codes ".bat")
    then take (length name - 4) name
    else name

unfoldable pub program_name : Text → Text
unfolding drop_ext to_lower base replace_byte trim_space
program_name arg = drop_ext (to_lower (base (replace_byte backslash slash (trim_space arg))))

abbrev pub shell_interpreters : List String
shell_interpreters =
    "ash" ∷ "bash" ∷ "busybox" ∷ "cmd" ∷ "command" ∷ "csh" ∷ "dash" ∷ "fish" ∷ "ksh" ∷ "powershell"
    ∷ "pwsh" ∷ "sh" ∷ "tcsh" ∷ "zsh" ∷ []

unfoldable pub is_shell_interpreter : Text → Bool
unfolding in_set program_name
is_shell_interpreter name = in_set (program_name name) shell_interpreters

abbrev pub exec_wrappers : List String
exec_wrappers =
    "env" ∷ "timeout" ∷ "nohup" ∷ "nice" ∷ "ionice" ∷ "setsid" ∷ "stdbuf" ∷ "script" ∷ "watch"
    ∷ "time" ∷ "chroot" ∷ "unshare" ∷ "flock" ∷ "ssh" ∷ "docker" ∷ "podman" ∷ "kubectl" ∷ "find"
    ∷ []

unfoldable pub spells_a_shell : List Text → Bool
unfolding is_shell_interpreter
spells_a_shell [] = false
spells_a_shell (prog ∷ args) =
    if is_shell_interpreter prog
    then true
    else if in_set (program_name prog) exec_wrappers
    then any is_shell_interpreter args
    else false
