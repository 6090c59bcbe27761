-- ===== src/Core/Text.antt =====
-- What the code takes from `str` and `format!`: white space, `trim`, decimal digits.
use Prim.Native.Char.{Char, code}
use Prim.Native.String.{◌∷◌ as cons_char, [] as no_chars}
use zj_radar.Prelude.{
  ℕ, zero, suc, ◌/◌, ◌%◌, String, Bool, true, false, ◌&&◌, ◌||◌, ◌≡◌, refl, Option, none, some,
  List, any, is_some, ◌==◌, leb, ltb, str_eq, if◌then◌else◌,
}

-- `char::is_whitespace`, the property White_Space.
unfoldable pub is_whitespace : Char → Bool
is_whitespace c =
    let n = code c in
    (leb 9 n && leb n 13)
    || n == 32
    || n == 0x85
    || n == 0xa0
    || n == 0x1680
    || (leb 0x2000 n && leb n 0x200a)
    || n == 0x2028
    || n == 0x2029
    || n == 0x202f
    || n == 0x205f
    || n == 0x3000

unfoldable pub trim_start : String → String
trim_start no_chars = no_chars
trim_start (cons_char c s) = if is_whitespace c then trim_start s else cons_char c s

unfoldable pub trim_end : String → String
trim_end no_chars = no_chars
trim_end (cons_char c s) =
    let rest = trim_end s in
    if is_whitespace c && str_eq rest "" then no_chars else cons_char c rest

unfoldable pub trim : String → String
unfolding trim_start trim_end is_whitespace
trim s = trim_end (trim_start s)

unfoldable pub append : String → String → String
append no_chars t = t
append (cons_char c s) t = cons_char c (append s t)

-- A set of names, or a slice of them, read by `contains`.
unfoldable pub contains : List String → String → Bool
unfolding any
contains names name = any (λ n. str_eq n name) names

unfoldable pub same_char : Char → Char → Bool
same_char c d = code c == code d

-- A char that a text holds.
unfoldable pub has_char : String → Char → Bool
has_char no_chars c = false
has_char (cons_char d s) c = same_char d c || has_char s c

-- `chars().all`
unfoldable pub every_char : (Char → Bool) → String → Bool
every_char p no_chars = true
every_char p (cons_char c s) = p c && every_char p s

unfoldable pub first_char : String → Option Char
first_char no_chars = none
first_char (cons_char c s) = some c

unfoldable pub last_char : String → Option Char
last_char no_chars = none
last_char (cons_char c s) = elim (last_char s) [ none ↦ some c | some d ↦ some d ]

-- The chars up to white space.
unfoldable pub word : String → String
word no_chars = no_chars
word (cons_char c s) = if is_whitespace c then no_chars else cons_char c (word s)

-- `trim_start_matches('-')`
unfoldable pub trim_dashes : String → String
trim_dashes no_chars = no_chars
trim_dashes (cons_char c s) = if code c == 0x2d then trim_dashes s else cons_char c s

unfoldable pub strip_prefix : String → String → Option String
strip_prefix no_chars s = some s
strip_prefix (cons_char c p) no_chars = none
strip_prefix (cons_char c p) (cons_char d s) = if same_char c d then strip_prefix p s else none

unfoldable pub starts_with : String → String → Bool
unfolding strip_prefix
starts_with p s = is_some (strip_prefix p s)

unfoldable pub strip_suffix : String → String → Option String
strip_suffix e no_chars = if str_eq e "" then some "" else none
strip_suffix e (cons_char c s) =
    if str_eq e (cons_char c s)
    then some ""
    else elim (strip_suffix e s) [ none ↦ none | some front ↦ some (cons_char c front) ]

-- `split_once` and `rsplit_once` at a char.
unfoldable pub split_once : Char → String → Option (String × String)
split_once c no_chars = none
split_once c (cons_char d s) =
    if same_char d c
    then some ("", s)
    else elim (split_once c s) [ none ↦ none | some (front, back) ↦ some (cons_char d front, back) ]

unfoldable pub rsplit_once : Char → String → Option (String × String)
rsplit_once c no_chars = none
rsplit_once c (cons_char d s) = elim (rsplit_once c s) [
  | some (front, back) ↦ some (cons_char d front, back)
  | none ↦ if same_char d c then some ("", s) else none
]

unfoldable pub is_digit : Char → Bool
is_digit c = leb 0x30 (code c) && leb (code c) 0x39

unfoldable pub is_ascii_alphanumeric : Char → Bool
unfolding is_digit
is_ascii_alphanumeric c =
    is_digit c
    || (leb 0x41 (code c) && leb (code c) 0x5a)
    || (leb 0x61 (code c) && leb (code c) 0x7a)

unfoldable pub digit : ℕ → Char
digit zero = "0"
digit (suc zero) = "1"
digit (suc (suc zero)) = "2"
digit (suc (suc (suc zero))) = "3"
digit (suc (suc (suc (suc zero)))) = "4"
digit (suc (suc (suc (suc (suc zero))))) = "5"
digit (suc (suc (suc (suc (suc (suc zero)))))) = "6"
digit (suc (suc (suc (suc (suc (suc (suc zero))))))) = "7"
digit (suc (suc (suc (suc (suc (suc (suc (suc zero)))))))) = "8"
digit _ = "9"

-- The digits of `n`, in front of what is printed already, on fuel.
unfoldable pub decimal_loop : ℕ → ℕ → String → String
unfolding digit
decimal_loop zero n acc = acc
decimal_loop (suc fuel) n acc =
    let out = cons_char (digit (n % 10)) acc in
    let rest = decimal_loop fuel (n / 10) out in if ltb n 10 then out else rest

-- A number below 10 ^ k has at most k digits, so `n` itself bounds the rounds.
unfoldable pub decimal : ℕ → String
unfolding decimal_loop
decimal n = decimal_loop (suc n) n ""

decimal_test : decimal 407 ≡ "407"
unfolding decimal
decimal_test = refl

trim_test : trim " \ta b\n " ≡ "a b"
unfolding trim
trim_test = refl
