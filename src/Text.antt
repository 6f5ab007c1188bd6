-- ===== src/Text.antt =====
-- The functions of Rust's `str` and `char` that the program calls. A text is the list of its
-- code points; `Text/Utf8.antt` has its bytes.
pub mod Utf8
pub mod Laws
use Prim.Native.Char.{code}
use Prim.Native.String.{String}
use mathlib.Core.List.{reverse}
use mathlib.Core.Option
use rust_forge.Base.{
  ℕ, zero, suc, ◌+◌, ◌-◌, ◌/◌, ◌%◌, ◌++◌, Bool, true, false, ◌&&◌, ◌||◌, List, [], ◌∷◌, map, Option,
  none, some, ltb, leb, ◌==◌, if◌then◌else◌, any, is_some,
}

abbrev pub Text : Type 0
Text = List ℕ

-- A literal of the source.
abbrev pub codes : String → Text
codes String.[] = []
codes (String.◌∷◌ c s) = code c ∷ codes s

-- `a == b`
abbrev pub text_eq : Text → Text → Bool
text_eq [] [] = true
text_eq [] (_ ∷ _) = false
text_eq (_ ∷ _) [] = false
text_eq (c ∷ s) (d ∷ t) = c == d && text_eq s t

-- `list.contains(&s)`
unfoldable pub one_of : List Text → Text → Bool
one_of ts s = any (text_eq s) ts

-- `s.is_empty()`
abbrev pub is_empty : Text → Bool
is_empty [] = true
is_empty (_ ∷ _) = false

abbrev pub between : ℕ → ℕ → ℕ → Bool
between lo hi c = leb lo c && leb c hi

-- `char::is_whitespace`: the property White_Space.
unfoldable pub is_whitespace : ℕ → Bool
is_whitespace c =
    between 9 13 c
    || c == 32
    || c == 0x85
    || c == 0xa0
    || c == 0x1680
    || between 0x2000 0x200a c
    || c == 0x2028
    || c == 0x2029
    || c == 0x202f
    || c == 0x205f
    || c == 0x3000

-- `char::is_control`: the category Cc.
unfoldable pub is_control : ℕ → Bool
is_control c = ltb c 32 || between 127 159 c

abbrev pub lower : ℕ → ℕ
lower c = if between b'A' b'Z' c then c + 32 else c

abbrev pub upper : ℕ → ℕ
upper c = if between b'a' b'z' c then c - 32 else c

unfoldable pub to_ascii_lowercase : Text → Text
to_ascii_lowercase = map lower

unfoldable pub to_ascii_uppercase : Text → Text
to_ascii_uppercase = map upper

unfoldable pub trim_start_matches : (ℕ → Bool) → Text → Text
trim_start_matches p [] = []
trim_start_matches p (c ∷ s) = let rest = trim_start_matches p s in if p c then rest else c ∷ s

unfoldable pub trim_end_matches : (ℕ → Bool) → Text → Text
trim_end_matches p [] = []
trim_end_matches p (c ∷ s) =
    let rest = trim_end_matches p s in if p c && is_empty rest then [] else c ∷ rest

unfoldable pub trim : Text → Text
trim s = trim_end_matches is_whitespace (trim_start_matches is_whitespace s)

-- `s.contains(p)` for a test on characters
unfoldable pub contains : (ℕ → Bool) → Text → Bool
contains p s = any p s

-- `s.contains(['\r', '\n'])` and its like
unfoldable pub one_char_of : List ℕ → ℕ → Bool
one_char_of cs c = any (λ d. c == d) cs

unfoldable pub strip_prefix : Text → Text → Option Text
strip_prefix [] s = some s
strip_prefix (p ∷ ps) [] = none
strip_prefix (p ∷ ps) (c ∷ s) = if c == p then strip_prefix ps s else none

unfoldable pub strip_suffix : Text → Text → Option Text
strip_suffix p s = Option.map reverse (strip_prefix (reverse p) (reverse s))

unfoldable pub starts_with : Text → Text → Bool
starts_with p s = is_some (strip_prefix p s)

-- `s.contains(p)` for a text
unfoldable pub contains_text : Text → Text → Bool
contains_text p [] = starts_with p []
contains_text p (c ∷ s) = let rest = contains_text p s in starts_with p (c ∷ s) || rest

unfoldable pub ends_with : Text → Text → Bool
ends_with p s = is_some (strip_suffix p s)

abbrev pub cons_head : ℕ → List Text → List Text
cons_head c [] = (c ∷ []) ∷ []
cons_head c (w ∷ ws) = (c ∷ w) ∷ ws

-- `s.split(p)`
unfoldable pub split : (ℕ → Bool) → Text → List Text
split p [] = [] ∷ []
split p (c ∷ s) = let rest = split p s in if p c then [] ∷ rest else cons_head c rest

-- `split(…).next().unwrap_or_default()`
abbrev pub first_part : List Text → Text
first_part [] = []
first_part (w ∷ ws) = w

-- `s.split_once(c)`
unfoldable pub split_once : ℕ → Text → Option (Text × Text)
split_once c [] = none
split_once c (x ∷ s) =
    let rest = split_once c s in
    if x == c then some ([], s) else Option.map (λ r. (x ∷ r.0, r.1)) rest

-- `s.replace(from, to)` for one character each
unfoldable pub replace : ℕ → ℕ → Text → Text
replace from to = map (λ c. if c == from then to else c)

abbrev pub utf8_width : ℕ → ℕ
utf8_width c = if ltb c 0x80 then 1 else if ltb c 0x800 then 2 else if ltb c 0x10000 then 3 else 4

-- `s.len()`, in bytes
unfoldable pub byte_len : Text → ℕ
byte_len [] = 0
byte_len (c ∷ s) = utf8_width c + byte_len s

-- The order of texts, by code points; it is the order of their bytes.
abbrev pub text_le : Text → Text → Bool
text_le [] _ = true
text_le (_ ∷ _) [] = false
text_le (c ∷ s) (d ∷ t) = if c == d then text_le s t else ltb c d

unfoldable pub insert_text : Text → List Text → List Text
insert_text s [] = s ∷ []
insert_text s (t ∷ ts) = let rest = insert_text s ts in if text_le s t then s ∷ t ∷ ts else t ∷ rest

-- `texts.sort()`
unfoldable pub sort_texts : List Text → List Text
unfolding insert_text
sort_texts [] = []
sort_texts (t ∷ ts) = insert_text t (sort_texts ts)

decimal_from : ℕ → ℕ → Text → Text
decimal_from zero n acc = acc
decimal_from (suc fuel) n acc =
    let acc' = (b'0' + n % 10) ∷ acc in
    let more = decimal_from fuel (n / 10) acc' in if ltb n 10 then acc' else more

-- `n.to_string()`; `n + 1` rounds are enough, since each divides by ten.
unfoldable pub decimal : ℕ → Text
unfolding decimal_from
decimal n = decimal_from (n + 1) n []

-- The pieces of a list of texts that `flat_map` joins.
abbrev pub flat_map : (Text → List Text) → List Text → List Text
flat_map f [] = []
flat_map f (t ∷ ts) = f t ++ flat_map f ts
