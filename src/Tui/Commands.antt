-- ===== src/Tui/Commands.antt =====
-- crates/lockframe-tui/src/commands.rs: the parser of commands. A text is the list of its characters, as code
-- points; white space and numbers are read as Rust's standard library reads them.
use lockframe.Common.{
  ℕ, ◌+◌, ◌*◌, ◌-◌, ◌^◌, List, [], ◌∷◌, ◌++◌, Bool, true, false, ◌&&◌, ◌||◌, Option, none, some,
  ◌==◌, ltb, leb, if◌then◌else◌, is_empty,
}
use mathlib.Core.List.{reverse}
use lockframe.App.State.{
  CommandName, ArgsText, create, join, add, invalid_room_id, invalid_user_id, usage,
}

abbrev pub String : Type 0
String = List ℕ

pub data Command : Type 0 where
  connect leave_active_room publish_key_package quit : Command
  create_room join_room add_member : ℕ → Command
  message unknown : String → Command
  invalid_args : CommandName → ArgsText → Command

-- `char::is_whitespace`
unfoldable pub is_whitespace : ℕ → Bool
is_whitespace c =
    (leb 9 c && leb c 13)
    || (c == 32)
    || (c == 133)
    || (c == 160)
    || (c == 5760)
    || (leb 8192 c && leb c 8202)
    || (c == 8232)
    || (c == 8233)
    || (c == 8239)
    || (c == 8287)
    || (c == 12288)

unfoldable pub trim_start : String → String
trim_start [] = []
trim_start (c ∷ text) = if is_whitespace c then trim_start text else c ∷ text

unfoldable pub trim : String → String
trim text = reverse (trim_start (reverse (trim_start text)))

abbrev word_then : String → List String → List String
word_then word words = if is_empty word then words else word ∷ words

-- The words, with the one that is being read.
split_from : String → String → List String
split_from word [] = word_then word []
split_from word (c ∷ text) =
    if is_whitespace c
    then word_then word (split_from [] text)
    else split_from (word ++ c ∷ []) text

unfoldable pub split_whitespace : String → List String
unfolding split_from
split_whitespace text = split_from [] text

unfoldable pub same_text : String → String → Bool
same_text [] [] = true
same_text (c ∷ s) (d ∷ t) = (c == d) && same_text s t
same_text _ _ = false

-- The digits of a number below a bound, behind those that are read.
digits : ℕ → ℕ → String → Option ℕ
digits bound n [] = some n
digits bound n (c ∷ text) =
    let next = n * 10 + (c - 48) in
    if leb 48 c && leb c 57 && ltb next bound then digits bound next text else none

-- `str::parse` for an unsigned number below a bound: digits, behind a `+` or not.
unfoldable pub parse_number : ℕ → String → Option ℕ
unfolding digits
parse_number bound [] = none
parse_number bound (c ∷ []) = if c == 43 then none else digits bound 0 (c ∷ [])
parse_number bound (c ∷ text) = if c == 43 then digits bound 0 text else digits bound 0 (c ∷ text)

with_id : CommandName → ArgsText → (ℕ → Command) → Option ℕ → Command
with_id name invalid make none = invalid_args name invalid
with_id name invalid make (some id) = make id

with_args : CommandName → ArgsText → (ℕ → Command) → ℕ → List String → Command
unfolding with_id
with_args name invalid make bound [] = invalid_args name usage
with_args name invalid make bound (arg ∷ args) = with_id name invalid make (parse_number bound arg)

-- The match on the command, with its arguments.
command : String → String → List String → Command
unfolding with_args
command input name args =
    if same_text name (b'c' ∷ b'o' ∷ b'n' ∷ b'n' ∷ b'e' ∷ b'c' ∷ b't' ∷ [])
    then connect
    else if same_text name (b'c' ∷ b'r' ∷ b'e' ∷ b'a' ∷ b't' ∷ b'e' ∷ [])
    then with_args create invalid_room_id create_room (2 ^ 128) args
    else if same_text name (b'j' ∷ b'o' ∷ b'i' ∷ b'n' ∷ [])
    then with_args join invalid_room_id join_room (2 ^ 128) args
    else if same_text name (b'l' ∷ b'e' ∷ b'a' ∷ b'v' ∷ b'e' ∷ [])
    then leave_active_room
    else if same_text name (b'p' ∷ b'u' ∷ b'b' ∷ b'l' ∷ b'i' ∷ b's' ∷ b'h' ∷ [])
    then publish_key_package
    else if same_text name (b'a' ∷ b'd' ∷ b'd' ∷ [])
    then with_args add invalid_user_id add_member (2 ^ 64) args
    else if same_text name (b'q' ∷ b'u' ∷ b'i' ∷ b't' ∷ []) || same_text name (b'q' ∷ [])
    then quit
    else unknown input

parts : String → List String → Command
unfolding command
parts input [] = command input [] []
parts input (name ∷ args) = command input name args

trimmed : String → Command
unfolding parts
trimmed [] = message []
trimmed (c ∷ text) =
    if c == 47 then parts (c ∷ text) (split_whitespace text) else message (c ∷ text)

unfoldable pub parse : String → Command
unfolding trimmed
parse input = trimmed (trim input)
