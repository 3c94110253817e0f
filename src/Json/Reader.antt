-- ===== src/Json/Reader.antt =====
-- What a JSON reader makes of the literals that `push_json_str` writes.
use ndn_mobile.Prelude.{ℕ, ◌≡◌, refl, sym, arith, Bool, true, false, Option, none, some, [], ◌∷◌}
use ndn_mobile.Prelude.{◌++◌, map, append_assoc, append-nil, drop, length, ltb, ◌==◌, if◌then◌else◌}
use ndn_mobile.Text.{Text}
use ndn_mobile.Json.{escape, push_chars, push_json_str}

-- RFC 8259, section 7, without `\u`: what stands after a backslash.
unfoldable unescape : ℕ → Option ℕ
unescape c =
    if c == b'"'
    then some b'"'
    else if c == b'\\'
    then some b'\\'
    else if c == b'/'
    then some b'/'
    else if c == b'b'
    then some 8
    else if c == b'f'
    then some 12
    else if c == b'n'
    then some 10
    else if c == b'r'
    then some 13
    else if c == b't'
    then some 9
    else none

unfoldable prepend : ℕ → Option (Text × Text) → Option (Text × Text)
prepend c none = none
prepend c (some (s, rest)) = some (c ∷ s, rest)

-- The characters up to the closing quotation mark, and what follows it.
unfoldable read_chars : Bool → Text → Option (Text × Text)
read_chars escaped [] = none
read_chars true (c ∷ cs) = elim (unescape c) [
  | none ↦ none
  | some d ↦ prepend d (read_chars false cs)
]
read_chars false (c ∷ cs) = elim (c == b'"') [
  | true ↦ some ([], cs)
  | false ↦ elim (c == b'\\') [
    | true ↦ read_chars true cs
    | false ↦ elim (ltb c 32) [ true ↦ none | false ↦ prepend c (read_chars false cs) ]
  ]
]

-- A string literal at the start of a text, and what follows it.
pub read_string : Text → Option (Text × Text)
read_string [] = none
read_string (c ∷ cs) = if c == b'"' then read_chars false cs else none

-- What is lost: a control character with no short escape becomes a space.
pub clean : ℕ → ℕ
clean c =
    if c == 9 then c else if c == 10 then c else if c == 13 then c else if ltb c 32 then b' ' else c

read_chars-escape :
    (c : ℕ) (cs : Text)
    → read_chars false (escape c ++ cs) ≡ prepend (clean c) (read_chars false cs)
unfolding read_chars unescape escape clean
read_chars-escape c cs = ground arith

push_chars_append : (out s : Text) → push_chars out s ≡ out ++ push_chars [] s
unfolding push_chars
push_chars_append out [] = sym (append-nil out)
push_chars_append out (c ∷ s) =
    rw (push_chars_append (out ++ escape c) s, push_chars_append (escape c) s, append_assoc)

read_chars-push_chars :
    (s rest : Text) → read_chars false (push_chars [] s ++ b'"' ∷ rest) ≡ some (map clean s, rest)
unfolding push_chars read_chars prepend
read_chars-push_chars [] rest = refl
read_chars-push_chars (c ∷ s) rest = rw (
  push_chars_append (escape c) s,
  append_assoc (escape c) (push_chars [] s) (b'"' ∷ rest),
  read_chars-escape c (push_chars [] s ++ b'"' ∷ rest),
  read_chars-push_chars s rest,
)

drop_past : (out s : Text) → drop (length out) (out ++ s) ≡ s
drop_past [] s = refl
drop_past (c ∷ out) s = drop_past out s

-- For every text, whatever stands before and after: a JSON reader that starts behind `out` reads one
-- string literal there, which is the text with each control character but tab, line feed and
-- carriage return turned into a space, and stops exactly at its end.
pub read_string-push_json_str :
    (out s rest : Text)
    → read_string (drop (length out) (push_json_str out s ++ rest)) ≡ some (map clean s, rest)
unfolding push_json_str read_string
read_string-push_json_str out s rest =
    rw
      (
        push_chars_append (out ++ b'"' ∷ []) s,
        append_assoc (out ++ b'"' ∷ []) (push_chars [] s) (b'"' ∷ []),
        append_assoc (out ++ b'"' ∷ []) (push_chars [] s ++ b'"' ∷ []) rest,
        append_assoc (push_chars [] s) (b'"' ∷ []) rest,
        append_assoc out (b'"' ∷ []) (push_chars [] s ++ b'"' ∷ rest),
        drop_past out (b'"' ∷ push_chars [] s ++ b'"' ∷ rest),
      )
      (read_chars-push_chars s rest)
