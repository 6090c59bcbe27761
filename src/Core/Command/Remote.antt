-- ===== src/Core/Command/Remote.antt =====
-- crates/core/src/command.rs: how an ssh-like argv is shown.
use Prim.Native.Char.{Char}
use Prim.Native.String.{◌∷◌ as cons_char, [] as no_chars}
use zj_radar.Prelude.{
  String, Bool, true, false, not, Option, none, some, List, [], ◌∷◌, ◌≡◌, refl, str_eq, unwrap_or,
  if◌then◌else◌,
}
use zj_radar.Core.Text.{
  append, same_char, contains, has_char, strip_prefix, starts_with, split_once, rsplit_once,
}
use zj_radar.Core.Command.Argv.{is_option_arg, raw_display}

abbrev pub ssh_value_opts : String
ssh_value_opts = "BbcDEeFIiJLlmOopQRSWw"

abbrev pub autossh_value_opts : String
autossh_value_opts = "MBbcDEeFIiJLlmOopQRSWw"

abbrev pub remote_value_long_opts : List String
remote_value_long_opts =
    "--ssh" ∷ "--server" ∷ "--predict" ∷ "--port" ∷ "--family" ∷ "--client" ∷ "--bind-server"
    ∷ "--experimental-remote-ip" ∷ "--local" ∷ "--jumphost" ∷ "--jport" ∷ "--tunnel"
    ∷ "--reversetunnel" ∷ "--username" ∷ "--user" ∷ "--command" ∷ "--ssh-option" ∷ "--sshoptions"
    ∷ "--ssh-socket" ∷ "--terminal-path" ∷ "--keepalive" ∷ "--serverfifo" ∷ "--logtostdout" ∷ []

unfoldable pub before : Char → String → String
before c s = elim (split_once c s) [ none ↦ s | some (front, _) ↦ front ]

unfoldable pub behind_last : Char → String → String
behind_last c s = elim (rsplit_once c s) [ none ↦ s | some (_, back) ↦ back ]

-- The host without its port, if there is one colon exactly.
unfoldable pub without_port : String → String
without_port token = elim (split_once ":" token) [
  | none ↦ token
  | some (host, port) ↦ if has_char port ":" then token else host
]

unfoldable pub remote_destination : String → String
unfolding before behind_last without_port
remote_destination arg =
    let token = unwrap_or (strip_prefix "ssh://" arg) arg in
    let host = before "/" (behind_last "@" token) in
    elim (strip_prefix "[" host) [ some inner ↦ before "]" inner | none ↦ without_port host ]

-- Whether the first value-taking letter of a cluster is its last, so that the next token is its
-- value.
unfoldable pub takes_next : String → String → Bool
takes_next opts no_chars = false
takes_next opts (cons_char c s) = if has_char opts c then str_eq s "" else takes_next opts s

unfoldable pub tail_chars : String → String
tail_chars no_chars = ""
tail_chars (cons_char _ s) = s

-- What one round of the loop does with `arg`: end the options, pass over it, or over it and its
-- value, or take it for a positional.
pub data Step : Type 0 where
  end_options pass pass_value positional : Step

unfoldable pub remote_step : String → Bool → String → Step
unfolding tail_chars
remote_step opts positional_only arg =
    if positional_only
    then Step.positional
    else if str_eq arg "--"
    then Step.end_options
    else if str_eq arg "-"
    then Step.pass
    else if starts_with "--" arg
    then (if contains remote_value_long_opts arg then Step.pass_value else Step.pass)
    else if is_option_arg arg
    then (if takes_next opts (tail_chars arg) then Step.pass_value else Step.pass)
    else Step.positional

-- The loop of `display_remote`, with the destination once it is found; `skip` is set for a token
-- that is the value of the one before it.
unfoldable pub remote_loop :
    String → Bool → Bool → Bool → Option String → List String → String × Bool
remote_loop exe trailing skip positional_only none [] = (exe, false)
remote_loop exe trailing skip positional_only (some d) [] = (raw_display (exe ∷ d ∷ []), false)
remote_loop exe trailing true positional_only dest (arg ∷ args) =
    remote_loop exe trailing false positional_only dest args
remote_loop exe trailing false positional_only dest (arg ∷ args) =
    let opts = if str_eq exe "autossh" then autossh_value_opts else ssh_value_opts in
    elim (remote_step opts positional_only arg) [
      | Step.end_options ↦ remote_loop exe trailing false true dest args
      | Step.pass ↦ remote_loop exe trailing false positional_only dest args
      | Step.pass_value ↦ remote_loop exe trailing true positional_only dest args
      | Step.positional ↦ elim dest [
        | none ↦ remote_loop exe trailing false positional_only (some (remote_destination arg)) args
        | some d ↦ (raw_display (exe ∷ d ∷ []), trailing)
      ]
    ]

unfoldable pub display_remote : String → List String → String × Bool
display_remote exe args = remote_loop exe (not (str_eq exe "mosh-client")) false false none args

ssh_test :
    display_remote "ssh" ("-4p" ∷ "2222" ∷ "me@box:22" ∷ "cargo" ∷ "build" ∷ []) ≡ ("ssh box", true)
unfolding display_remote remote_step takes_next is_option_arg starts_with strip_prefix
    remote_destination split_once rsplit_once raw_display contains has_char remote_loop same_char
    append
ssh_test = refl
