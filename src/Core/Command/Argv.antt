-- ===== src/Core/Command/Argv.antt =====
-- crates/core/src/command.rs: which program an argv runs. A borrowed slice `&command[i..]` is the
-- list from there on.
use zj_radar.Prelude.{
  ℕ, ◌+◌, String, Bool, not, ◌&&◌, ◌||◌, Option, none, some, List, [], ◌∷◌, str_eq, drop,
  is_some_and, unwrap_or, or_else, if◌then◌else◌,
}
use zj_radar.Core.Text.{
  contains, same_char, every_char, is_ascii_alphanumeric, trim_dashes, starts_with, strip_suffix,
  split_once, append,
}
use zj_radar.Core.Command.{basename}

abbrev pub ignore_names : List String
ignore_names =
    "zsh" ∷ "bash" ∷ "fish" ∷ "sh" ∷ "dash" ∷ "ash" ∷ "ksh" ∷ "mksh" ∷ "tcsh" ∷ "csh" ∷ "nu"
    ∷ "nushell" ∷ "pwsh" ∷ "elvish" ∷ "xonsh" ∷ "starship" ∷ "direnv" ∷ []

abbrev pub agent_names : List String
agent_names = "claude" ∷ "codex" ∷ "opencode" ∷ "pi" ∷ "omp" ∷ []

abbrev pub wrappers : List String
wrappers = "sudo" ∷ "doas" ∷ "env" ∷ "time" ∷ "nice" ∷ "command" ∷ "exec" ∷ []

abbrev pub js_runtimes : List String
js_runtimes = "node" ∷ "bun" ∷ []

abbrev pub js_script_exts : List String
js_script_exts = ".js" ∷ ".mjs" ∷ ".cjs" ∷ []

unfoldable pub program_name : String → String
program_name s = trim_dashes (basename s)

unfoldable pub is_option_arg : String → Bool
is_option_arg s = starts_with "-" s && not (str_eq s "-")

-- The first arg that a test lets through, with its index; `idx` is the index of the first one.
unfoldable pub find_arg : (String → Bool) → ℕ → List String → Option (ℕ × String)
find_arg p idx [] = none
find_arg p idx (arg ∷ args) = if p arg then some (idx, arg) else find_arg p (idx + 1) args

unfoldable pub first_non_option : List String → ℕ → Option (ℕ × String)
unfolding find_arg
first_non_option args start =
    find_arg (λ arg. not (is_option_arg arg) && not (str_eq arg "-")) start (drop start args)

unfoldable pub known_subcommand : List String → List String → Option (ℕ × String)
unfolding find_arg
known_subcommand args known = find_arg (λ arg. not (is_option_arg arg) && contains known arg) 0 args

unfoldable pub target_after : List String → ℕ → Option String
target_after args start = elim (first_non_option args start) [
  | none ↦ none
  | some (_, arg) ↦ some arg
]

-- `join(" ")` of the parts that are not empty.
unfoldable pub raw_display : List String → String
raw_display [] = ""
raw_display (part ∷ parts) =
    let rest = raw_display parts in
    if str_eq part "" then rest else if str_eq rest "" then part else append part (append " " rest)

unfoldable pub is_env_assignment : String → Bool
is_env_assignment s = is_some_and (split_once "=" s) (λ (pair : String × String).
    not (str_eq pair.0 "") && every_char (λ c. is_ascii_alphanumeric c || same_char c "_") pair.0)

-- The loop of `effective_command` passes over a token that is an assignment or a wrapper.
unfoldable pub is_peeled : String → Bool
is_peeled tok = is_env_assignment tok || contains wrappers (basename tok)

unfoldable pub peel : List String → List String
peel [] = []
peel (tok ∷ command) = if is_peeled tok then peel command else tok ∷ command

-- Where nothing was peeled, both branches are the argv itself: the code's `i > 0` is left out.
unfoldable pub effective_command : List String → List String
effective_command command = elim (peel command) [
  | [] ↦ command
  | tok ∷ rest ↦
      if not (is_option_arg tok) && not (is_env_assignment tok) then tok ∷ rest else command
]

-- `JS_SCRIPT_EXTS.iter().find_map(|ext| base.strip_suffix(ext))`
unfoldable pub strip_ext : List String → String → Option String
strip_ext [] base = none
strip_ext (ext ∷ exts) base = or_else (strip_suffix ext base) (strip_ext exts base)

unfoldable pub script_stem : String → String
unfolding strip_ext
script_stem script = let base = basename script in unwrap_or (strip_ext js_script_exts base) base

-- The args behind the runtime: the first that is no option is the script.
unfoldable pub hosted_agent : List String → Option (List String × String)
hosted_agent [] = none
hosted_agent (tok ∷ args) =
    let rest = hosted_agent args in
    if is_option_arg tok
    then rest
    else if contains agent_names (script_stem tok)
    then some (tok ∷ args, script_stem tok)
    else none

unfoldable pub js_hosted_agent : List String → Option (List String × String)
js_hosted_agent [] = none
js_hosted_agent (runtime ∷ args) = hosted_agent args

unfoldable pub argv_name : List String → String
argv_name [] = ""
argv_name (tok ∷ _) = program_name tok

unfoldable pub effective_program : List String → List String × String
effective_program argv =
    let command = effective_command argv in
    let name = argv_name command in
    if contains js_runtimes name
    then unwrap_or (js_hosted_agent command) (command, name)
    else (command, name)

unfoldable pub is_shell_prompt : List String → Bool
is_shell_prompt command = contains ignore_names (effective_program command).1

unfoldable pub is_agent_command : List String → Bool
is_agent_command command = contains agent_names (effective_program command).1
