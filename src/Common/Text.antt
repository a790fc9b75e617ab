-- ===== src/Common/Text.antt =====
-- Texts as the code walks them: `str` methods of Rust's standard library.
use Prim.Native.Nat.{ℕ, ◌+◌}
use Prim.Native.Char.{Char, code}
use mathlib.Core.Option.{Option, none, some}
use Prim.Native.String.{String}
use mathlib.Core.Bool.{Bool, true, false, ◌&&◌, ◌||◌}
use mathlib.Core.List.{List, [], ◌∷◌, map, reverse}
use agent_proxy_rust.Common.Tests.{◌==◌, leb, if◌then◌else◌}

-- The code points of a text.
abbrev pub codes : String → List ℕ
codes String.[] = []
codes (String.◌∷◌ c s) = code c ∷ codes s

abbrev pub is_blank : String → Bool
is_blank String.[] = true
is_blank (String.◌∷◌ c s) = false

-- `starts_with` on code points, the text first.
abbrev pub is_prefix : List ℕ → List ℕ → Bool
is_prefix s [] = true
is_prefix [] (c ∷ p) = false
is_prefix (b ∷ s) (c ∷ p) = b == c && is_prefix s p

-- `contains`.
abbrev pub is_infix : List ℕ → List ℕ → Bool
is_infix [] p = is_prefix [] p
is_infix (b ∷ s) p = is_prefix (b ∷ s) p || is_infix s p

abbrev pub starts_with : String → String → Bool
starts_with s p = is_prefix (codes s) (codes p)

abbrev pub ends_with : String → String → Bool
ends_with s p = is_prefix (reverse (codes s)) (reverse (codes p))

abbrev pub contains : String → String → Bool
contains s p = is_infix (codes s) (codes p)

-- `to_lowercase` on ASCII text, by code points.
abbrev pub lower : List ℕ → List ℕ
lower = map λ c. if leb b'A' c && leb c b'Z' then c + 32 else c

abbrev pub code_eq : List ℕ → List ℕ → Bool
code_eq [] [] = true
code_eq (a ∷ s) (b ∷ t) = a == b && code_eq s t
code_eq _ _ = false

-- `trim_end_matches('/')`.
abbrev pub trim_slashes : String → String
trim_slashes String.[] = String.[]
trim_slashes (String.◌∷◌ c s) =
    let rest = trim_slashes s in
    if is_blank rest && code c == b'/' then String.[] else String.◌∷◌ c rest

-- `strip_prefix`, the text first.
abbrev pub strip_prefix : String → String → Option String
strip_prefix s String.[] = some s
strip_prefix String.[] (String.◌∷◌ c p) = none
strip_prefix (String.◌∷◌ b s) (String.◌∷◌ c p) =
    let rest = strip_prefix s p in if code b == code c then rest else none

-- A character before the first line.
abbrev pub attach : Char → List String → List String
attach c [] = String.◌∷◌ c String.[] ∷ []
attach c (line ∷ lines) = String.◌∷◌ c line ∷ lines

-- `lines`: a line ends at a line feed, with a carriage return just before it or without.
abbrev pub lines : String → List String
lines String.[] = []
lines (String.◌∷◌ c s) =
    let rest = lines s in
    if code c == b'\n'
    then String.[] ∷ rest
    else if code c == b'\r' && starts_with s "\n"
    then rest
    else attach c rest
