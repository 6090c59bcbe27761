-- ===== src/Core/Sanitize.antt =====
-- `sanitize` of crates/core/src/payload.rs, with its fast path and the walk `scrub` over the UTF-8
-- bytes. A byte knows whether it stands on a char boundary: `s.get(i..)` succeeds there, and its
-- first char is the one that the byte begins. `i` is the list of the bytes from `i` on.
pub mod Bytes
pub mod Walk
pub mod Laws
use Prim.Native.Char.{Char, code}
use Prim.Native.String.{◌∷◌ as cons_char, [] as no_chars}
use zj_radar.Prelude.{
  ◌≡◌, refl, ℕ, zero, suc, ◌+◌, ◌/◌, ◌%◌, String, Bool, true, false, not, ◌&&◌, ◌||◌, Option, none,
  some, List, [], ◌∷◌, ◌++◌, ltb, leb, ◌==◌, length, drop, if◌then◌else◌,
}

-- `s.chars().all(p)`
unfoldable pub all_chars : (Char → Bool) → String → Bool
all_chars p no_chars = true
all_chars p (cons_char c s) = p c && all_chars p s

-- `s.chars().take(n)`, and `s.truncate` at the `n`-th char.
unfoldable pub take_chars : ℕ → String → String
take_chars zero s = no_chars
take_chars (suc n) no_chars = no_chars
take_chars (suc n) (cons_char c s) = cons_char c (take_chars n s)

unfoldable pub count_chars : String → ℕ
count_chars no_chars = 0
count_chars (cons_char c s) = suc (count_chars s)

pub data Byte : Type 0 where
  lead : Char → ℕ → Byte
  cont : ℕ → Byte

abbrev pub value : Byte → ℕ
value (lead c n) = n
value (cont n) = n

-- The UTF-8 encoding of a char: the value of its first byte, and the bytes that follow.
unfoldable pub lead_value : ℕ → ℕ
lead_value n =
    if ltb n 0x80
    then n
    else if ltb n 0x800
    then 0xc0 + n / 64
    else if ltb n 0x10000
    then 0xe0 + n / 4096
    else 0xf0 + n / 262144

unfoldable pub conts : ℕ → List Byte
conts n =
    if ltb n 0x80
    then []
    else if ltb n 0x800
    then cont (0x80 + n % 64) ∷ []
    else if ltb n 0x10000
    then cont (0x80 + n / 64 % 64) ∷ cont (0x80 + n % 64) ∷ []
    else cont (0x80 + n / 4096 % 64) ∷ cont (0x80 + n / 64 % 64) ∷ cont (0x80 + n % 64) ∷ []

unfoldable pub bytes : String → List Byte
unfolding lead_value conts
bytes no_chars = []
bytes (cons_char c s) = lead c (lead_value (code c)) ∷ (conts (code c) ++ bytes s)

-- The bytes of a char after its first: `c.len_utf8() - 1`.
unfoldable pub extra_bytes : Char → ℕ
unfolding conts
extra_bytes c = length (conts (code c))

unfoldable pub is_bidi_control : ℕ → Bool
is_bidi_control n =
    (leb 0x202a n && leb n 0x202e)
    || (leb 0x2066 n && leb n 0x2069)
    || n == 0x200e
    || n == 0x200f
    || n == 0x061c

-- `char::is_control`, the general category Cc.
unfoldable pub is_control : ℕ → Bool
is_control n = ltb n 0x20 || (leb 0x7f n && leb n 0x9f)

unfoldable pub is_ascii_control : ℕ → Bool
is_ascii_control n = ltb n 0x20 || n == 0x7f

unfoldable pub kept : Char → Bool
unfolding is_bidi_control is_control is_ascii_control
kept c =
    let n = code c in
    if ltb n 0x80 then not (is_ascii_control n) else not (is_control n) && not (is_bidi_control n)

-- The loop of the CSI arm.
unfoldable pub csi : List Byte → List Byte
csi [] = []
csi (b ∷ bs) =
    if not (leb 0x20 (value b) && ltb (value b) 0x80)
    then b ∷ bs
    else if leb 0x40 (value b) && leb (value b) 0x7e
    then bs
    else csi bs

abbrev pub begins_with : ℕ → List Byte → Bool
begins_with n [] = false
begins_with n (b ∷ bs) = value b == n

-- The loop of the OSC arm.
unfoldable pub osc : List Byte → List Byte
osc [] = []
osc (b ∷ bs) =
    if value b == 0x07
    then bs
    else if value b == 0x1b && begins_with b'\\' bs
    then drop 1 bs
    else if ltb (value b) 0x20
    then b ∷ bs
    else osc bs

-- `match next`, from the bytes after the ESC.
unfoldable pub after_escape : List Byte → List Byte
unfolding csi osc
after_escape [] = []
after_escape (b ∷ bs) = if value b == b'[' then csi bs else if value b == b']' then osc bs else bs

-- The last arm: a char that begins here, or a stray continuation byte.
unfoldable pub step_normal : Byte → List Byte → Option Char × List Byte
unfolding extra_bytes
step_normal (lead c n) bs = (if kept c then some c else none, drop (extra_bytes c) bs)
step_normal (cont n) bs = (none, bs)

abbrev pub space : Char
space = " "

-- One round of the loop: the char that is pushed, if any, and the bytes that are left.
unfoldable pub scrub_step : Byte → List Byte → Option Char × List Byte
unfolding after_escape step_normal
scrub_step b bs =
    if value b == 0x1b
    then (none, after_escape bs)
    else if value b == 0x0a || value b == 0x09 || value b == 0x0d
    then (some space, bs)
    else if ltb (value b) 0x20 || value b == 0x7f
    then (none, bs)
    else step_normal b bs

abbrev pub push_char : Option Char → String → String
push_char none s = s
push_char (some c) s = cons_char c s

-- The loop, on fuel.
unfoldable pub scrub_loop : ℕ → List Byte → String
scrub_loop zero bs = no_chars
scrub_loop (suc fuel) [] = no_chars
scrub_loop (suc fuel) (b ∷ bs) =
    let (out, rest) = scrub_step b bs in push_char out (scrub_loop fuel rest)

-- A round consumes a byte at least, so as many rounds as there are bytes are enough.
unfoldable pub scrub : String → ℕ → String
unfolding scrub_loop bytes
scrub s max_chars = take_chars max_chars (scrub_loop (length (bytes s)) (bytes s))

unfoldable pub sanitize : String → ℕ → String
sanitize s max_chars = if all_chars kept s then take_chars max_chars s else scrub s max_chars

test_csi : sanitize "a\u{1b}[31mred\u{7}\u{202e}!" 60 ≡ "ared!"
unfolding sanitize scrub all_chars kept take_chars scrub_step
test_csi = refl
