-- ===== src/Core/Kind.antt =====
-- crates/core/src/kind.rs: `Kind` and what the `kinds!` table generates from it.
pub mod Source
use zj_radar.Prelude.{
  ℕ, String, Bool, true, false, ◌||◌, List, [], ◌∷◌, str_eq, if◌then◌else◌, ◌==◌,
}
use zj_radar.Core.Status.{GlyphSet}

pub data Kind : Type 0 where
  claude codex opencode pi omp gemini command other test build deploy server remote : Kind

abbrev pub all_kinds : List Kind
all_kinds =
    Kind.claude ∷ Kind.codex ∷ Kind.opencode ∷ Kind.pi ∷ Kind.omp ∷ Kind.gemini ∷ Kind.command
    ∷ Kind.other ∷ Kind.test ∷ Kind.build ∷ Kind.deploy ∷ Kind.server ∷ Kind.remote ∷ []

-- The position in the table, by which the derived equality is decided.
unfoldable pub index : Kind → ℕ
index Kind.claude = 0
index Kind.codex = 1
index Kind.opencode = 2
index Kind.pi = 3
index Kind.omp = 4
index Kind.gemini = 5
index Kind.command = 6
index Kind.other = 7
index Kind.test = 8
index Kind.build = 9
index Kind.deploy = 10
index Kind.server = 11
index Kind.remote = 12

unfoldable pub eq_kind : Kind → Kind → Bool
unfolding index
eq_kind a b = index a == index b

unfoldable pub from_source : String → Kind
from_source s =
    if str_eq s "claude"
    then Kind.claude
    else if str_eq s "codex"
    then Kind.codex
    else if str_eq s "opencode"
    then Kind.opencode
    else if str_eq s "pi"
    then Kind.pi
    else if str_eq s "omp"
    then Kind.omp
    else if str_eq s "gemini"
    then Kind.gemini
    else if str_eq s "command"
    then Kind.command
    else if str_eq s "other"
    then Kind.other
    else if str_eq s "test"
    then Kind.test
    else if str_eq s "build"
    then Kind.build
    else if str_eq s "deploy"
    then Kind.deploy
    else if str_eq s "server"
    then Kind.server
    else if str_eq s "remote"
    then Kind.remote
    else Kind.other

unfoldable pub as_source : Kind → String
as_source Kind.claude = "claude"
as_source Kind.codex = "codex"
as_source Kind.opencode = "opencode"
as_source Kind.pi = "pi"
as_source Kind.omp = "omp"
as_source Kind.gemini = "gemini"
as_source Kind.command = "command"
as_source Kind.other = "other"
as_source Kind.test = "test"
as_source Kind.build = "build"
as_source Kind.deploy = "deploy"
as_source Kind.server = "server"
as_source Kind.remote = "remote"

-- The `char`s as code points.
unfoldable pub mark : Kind → GlyphSet → ℕ
mark Kind.claude GlyphSet.plain = 0x2733
mark Kind.claude GlyphSet.nerd = 0xf06a9
mark Kind.codex GlyphSet.plain = 0x2749
mark Kind.codex GlyphSet.nerd = 0xf167a
mark Kind.opencode GlyphSet.plain = 0x273a
mark Kind.opencode GlyphSet.nerd = 0xf0169
mark Kind.pi GlyphSet.plain = 0x2734
mark Kind.pi GlyphSet.nerd = 0xf03ff
mark Kind.omp GlyphSet.plain = 0x2737
mark Kind.omp GlyphSet.nerd = 0xf0400
mark Kind.gemini GlyphSet.plain = 0x2726
mark Kind.gemini GlyphSet.nerd = 0xf0eb9
mark Kind.command GlyphSet.plain = 0x24
mark Kind.command GlyphSet.nerd = 0x24
mark Kind.other GlyphSet.plain = 0x29bf
mark Kind.other GlyphSet.nerd = 0x29bf
mark Kind.test GlyphSet.plain = 0x2697
mark Kind.test GlyphSet.nerd = 0x2697
mark Kind.build GlyphSet.plain = 0x2699
mark Kind.build GlyphSet.nerd = 0x2699
mark Kind.deploy GlyphSet.plain = 0x21e1
mark Kind.deploy GlyphSet.nerd = 0x21e1
mark Kind.server GlyphSet.plain = 0x276f
mark Kind.server GlyphSet.nerd = 0x276f
mark Kind.remote GlyphSet.plain = 0x21c4
mark Kind.remote GlyphSet.nerd = 0x21c4

unfoldable pub is_agent : Kind → Bool
is_agent Kind.claude = true
is_agent Kind.codex = true
is_agent Kind.opencode = true
is_agent Kind.pi = true
is_agent Kind.omp = true
is_agent Kind.gemini = true
is_agent Kind.command = false
is_agent Kind.other = false
is_agent Kind.test = false
is_agent Kind.build = false
is_agent Kind.deploy = false
is_agent Kind.server = false
is_agent Kind.remote = false

unfoldable pub is_service : Kind → Bool
is_service Kind.claude = false
is_service Kind.codex = false
is_service Kind.opencode = false
is_service Kind.pi = false
is_service Kind.omp = false
is_service Kind.gemini = false
is_service Kind.command = false
is_service Kind.other = false
is_service Kind.test = false
is_service Kind.build = false
is_service Kind.deploy = false
is_service Kind.server = true
is_service Kind.remote = false

unfoldable pub is_remote : Kind → Bool
is_remote Kind.claude = false
is_remote Kind.codex = false
is_remote Kind.opencode = false
is_remote Kind.pi = false
is_remote Kind.omp = false
is_remote Kind.gemini = false
is_remote Kind.command = false
is_remote Kind.other = false
is_remote Kind.test = false
is_remote Kind.build = false
is_remote Kind.deploy = false
is_remote Kind.server = false
is_remote Kind.remote = true

unfoldable pub is_steady : Kind → Bool
unfolding is_service is_remote
is_steady k = is_service k || is_remote k
