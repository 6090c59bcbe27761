-- ===== src/Core/Command/Rules.antt =====
-- crates/core/src/command.rs: the table of the tools, and how an argv is shown and classified.
-- `str::to_lowercase` is a parameter, `to_lowercase`.
use Prim.Native.Char.{Char}
use Prim.Native.String.{◌∷◌ as cons_char, [] as no_chars}
use zj_radar.Prelude.{
  ℕ, zero, suc, ◌+◌, String, Bool, true, false, not, ◌&&◌, ◌||◌, Option, none, some, List, [], ◌∷◌,
  str_eq, is_some_and, unwrap_or, or_else, if◌then◌else◌,
}
use zj_radar.Core.Text.{
  contains, same_char, every_char, is_digit, is_ascii_alphanumeric, first_char, last_char,
  strip_prefix,
}
use zj_radar.Core.Kind.{Kind, from_source, is_agent}
use zj_radar.Core.Sanitize.{sanitize, count_chars}
use zj_radar.Core.Observation.{max_msg_chars}
use zj_radar.Core.Command.{basename}
use zj_radar.Core.Command.Argv.{first_non_option, known_subcommand, target_after, raw_display}
use zj_radar.Core.Command.Remote.{display_remote}
use zj_radar.Core.Command.Extras.{default_remote}

pub record ToolRule : Type 0 where
  pub exes : List String
  pub subcommands : Option (List String)
  pub target_verbs : List String
  pub exe_kind : Option Kind
  pub verb_kinds : List (String × Kind)
  pub word_kinds : List (String × Kind)

abbrev pub first_arg_rule : ToolRule
first_arg_rule = record {
  exes = [];
  subcommands = none;
  target_verbs = [];
  exe_kind = none;
  verb_kinds = [];
  word_kinds = [];
}

abbrev pub python_rule : ToolRule
python_rule = record first_arg_rule { word_kinds = ("pytest", Kind.test) ∷ [] }

abbrev pub cargo_rule : ToolRule
cargo_rule = record first_arg_rule {
  exes = "cargo" ∷ [];
  subcommands = some (
      "test" ∷ "build" ∷ "check" ∷ "clippy" ∷ "fmt" ∷ "run" ∷ "bench" ∷ "doc" ∷ "clean" ∷ "install"
      ∷ "publish" ∷ "update" ∷ "nextest" ∷ []);
  target_verbs = "test" ∷ "bench" ∷ "run" ∷ "nextest" ∷ [];
  verb_kinds =
      ("test", Kind.test)
      ∷ ("nextest", Kind.test)
      ∷ ("build", Kind.build)
      ∷ ("check", Kind.build)
      ∷ [];
}

abbrev pub go_rule : ToolRule
go_rule = record first_arg_rule {
  exes = "go" ∷ [];
  subcommands = some ("test" ∷ "build" ∷ "run" ∷ "fmt" ∷ "vet" ∷ "mod" ∷ []);
  target_verbs = "test" ∷ "run" ∷ [];
  verb_kinds = ("test", Kind.test) ∷ ("build", Kind.build) ∷ [];
}

abbrev pub npm_rule : ToolRule
npm_rule = record first_arg_rule {
  exes = "npm" ∷ "pnpm" ∷ "yarn" ∷ "bun" ∷ [];
  target_verbs = "run" ∷ [];
  word_kinds =
      ("test", Kind.test)
      ∷ ("build", Kind.build)
      ∷ ("dev", Kind.server)
      ∷ ("start", Kind.server)
      ∷ ("serve", Kind.server)
      ∷ [];
}

abbrev pub pytest_rule : ToolRule
pytest_rule = record first_arg_rule { exes = "pytest" ∷ []; exe_kind = some Kind.test }

abbrev pub make_rule : ToolRule
make_rule = record first_arg_rule {
  exes = "make" ∷ "just" ∷ "ruff" ∷ [];
  word_kinds =
      ("test", Kind.test)
      ∷ ("build", Kind.build)
      ∷ ("deploy", Kind.deploy)
      ∷ ("push", Kind.deploy)
      ∷ ("serve", Kind.server)
      ∷ ("server", Kind.server)
      ∷ ("dev", Kind.server)
      ∷ [];
}

abbrev pub tool_rules : List ToolRule
tool_rules = cargo_rule ∷ go_rule ∷ npm_rule ∷ pytest_rule ∷ make_rule ∷ []

-- The first rule that lists the exe, or the fallback.
unfoldable pub rule_for : String → List ToolRule → ToolRule
rule_for exe [] = first_arg_rule
rule_for exe (rule ∷ rules) = if contains rule.exes exe then rule else rule_for exe rules

unfoldable pub operative_verb : List String → ToolRule → Option (ℕ × String)
operative_verb args rule = elim rule.subcommands [
  | some subs ↦ known_subcommand args subs
  | none ↦ first_non_option args 0
]

unfoldable pub apply_tool_rule : String → List String → ToolRule → String
apply_tool_rule exe args rule = elim (operative_verb args rule) [
  | none ↦ exe
  | some (idx, verb) ↦
      let target = if contains rule.target_verbs verb then target_after args (idx + 1) else none in
      elim target [
        | some t ↦ raw_display (exe ∷ verb ∷ t ∷ [])
        | none ↦ raw_display (exe ∷ verb ∷ [])
      ]
]

unfoldable pub is_python_interpreter : String → Bool
is_python_interpreter exe =
    is_some_and (strip_prefix "python" exe) (every_char (λ c. is_digit c || same_char c "."))

-- `args.iter().position(|arg| arg == "-m")`, as the args behind it.
unfoldable pub behind_m : List String → Option (List String)
behind_m [] = none
behind_m (arg ∷ args) = if str_eq arg "-m" then some args else behind_m args

unfoldable pub display_python : String → List String → String
unfolding behind_m
display_python exe args = elim (behind_m args) [
  | some [] ↦ exe
  | some (module_name ∷ rest) ↦
      if str_eq module_name "pytest"
      then elim (target_after rest 0) [
        | some target ↦ raw_display (exe ∷ "-m" ∷ "pytest" ∷ target ∷ [])
        | none ↦ raw_display (exe ∷ "-m" ∷ "pytest" ∷ [])
      ]
      else raw_display (exe ∷ "-m" ∷ module_name ∷ [])
  | none ↦ elim (first_non_option args 0) [
    | some (_, script) ↦ raw_display (exe ∷ basename script ∷ [])
    | none ↦ exe
  ]
]

-- A word is bounded by the edge or by a char that is not alphanumeric.
unfoldable pub boundary : Option Char → Bool
boundary none = true
boundary (some c) = not (is_ascii_alphanumeric c)

-- The matches of `word` in what is left of the haystack, behind `prev`, on fuel. They do not
-- overlap, as those of `match_indices`.
unfoldable pub word_loop : ℕ → Option Char → String → String → Bool
word_loop zero prev word hay = false
word_loop (suc fuel) prev word hay = elim (strip_prefix word hay) [
  | some rest ↦ elim (boundary prev && boundary (first_char rest)) [
    | true ↦ true
    | false ↦ word_loop fuel (last_char word) word rest
  ]
  | none ↦ elim hay [ no_chars ↦ false | cons_char c hay' ↦ word_loop fuel (some c) word hay' ]
]

-- For a word that is not empty each round takes a char at least.
unfoldable pub contains_word : String → String → Bool
unfolding word_loop boundary
contains_word haystack word = word_loop (suc (count_chars haystack)) none word haystack

unfoldable pub first_kind : (String → Bool) → List (String × Kind) → Option Kind
first_kind p [] = none
first_kind p ((w, k) ∷ ws) = if p w then some k else first_kind p ws

unfoldable pub verb_kind : List String → ToolRule → Option Kind
unfolding first_kind
verb_kind args rule = elim (operative_verb args rule) [
  | none ↦ none
  | some (_, verb) ↦ first_kind (λ v. str_eq v verb) rule.verb_kinds
]

module _ (to_lowercase : String → String) where
  unfoldable pub rule_kind : List String → String → ToolRule → Kind
  unfolding verb_kind first_kind
  rule_kind args display rule =
      unwrap_or (or_else rule.exe_kind (verb_kind args rule))
        (unwrap_or (first_kind (contains_word (to_lowercase display)) rule.word_kinds) Kind.command)

  unfoldable pub classify : List String → String × Kind
  unfolding rule_for
  classify [] = ("", Kind.command)
  classify (first ∷ args) =
      let exe = basename first in
      let identity = from_source exe in
      if is_agent identity
      then (sanitize exe max_msg_chars, identity)
      else if contains default_remote exe
      then (let (raw, has_remote_cmd) = display_remote exe args in
          (
            sanitize raw max_msg_chars,
            if str_eq raw exe || has_remote_cmd then Kind.command else Kind.remote,
          ))
      else let python = is_python_interpreter exe in
        let rule = if python then python_rule else rule_for exe tool_rules in
        let raw = if python then display_python exe args else apply_tool_rule exe args rule in
        let display = sanitize raw max_msg_chars in (display, rule_kind args display rule)
