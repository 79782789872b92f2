-- ===== src/Config.antt =====
-- sdr-udp/src/config_parser.cpp, ConfigParser: lines of a key, an equals sign and a value. A text is its
-- characters' codes; the map of the entries is the list of them. What is printed is not modelled.
pub mod Reload
pub mod Numbers
mod Tests
use sdr_rdma_udp.Common.{
  ℕ, zero, suc, ◌+◌, ◌-◌, ◌*◌, ◌^◌, Bool, true, false, not, ◌&&◌, ◌||◌, Option, none, some, List,
  [], ◌∷◌, ◌++◌, ltb, leb, ◌==◌, if◌then◌else◌, u32, u64,
}

abbrev pub Text : Type 0
Text = List ℕ

abbrev pub newline : ℕ
newline = 10

abbrev pub equals_sign : ℕ
equals_sign = 61

-- The characters that `trim` takes off: space, tab, carriage return and newline.
unfoldable pub is_blank : ℕ → Bool
is_blank c = (c == 32) || (c == 9) || (c == 13) || (c == 10)

unfoldable pub trim_left : Text → Text
unfolding is_blank
trim_left [] = []
trim_left (c ∷ cs) = if is_blank c then trim_left cs else c ∷ cs

abbrev pub is_empty : Text → Bool
is_empty [] = true
is_empty (c ∷ cs) = false

unfoldable pub trim_right : Text → Text
unfolding is_blank
trim_right [] = []
trim_right (c ∷ cs) =
    let rest = trim_right cs in if is_blank c && is_empty rest then [] else c ∷ rest

-- `trim`: from the first character that is not blank to the last.
unfoldable pub trim : Text → Text
unfolding trim_left trim_right
trim str = trim_right (trim_left str)

abbrev pub eq_text : Text → Text → Bool
eq_text [] [] = true
eq_text [] (d ∷ ds) = false
eq_text (c ∷ cs) [] = false
eq_text (c ∷ cs) (d ∷ ds) = (c == d) && eq_text cs ds

-- What stands before the first equals sign and after it.
unfoldable pub split_line : Text → Option (Text × Text)
split_line [] = none
split_line (c ∷ cs) =
    let later = split_line cs in
    if c == equals_sign
    then some ([], cs)
    else elim later [ none ↦ none | some r ↦ some (c ∷ r.0, r.1) ]

-- `config_map_`
abbrev pub Entries : Type 0
Entries = List (Text × Text)

-- `config_map_[key] = value`
unfoldable pub put : Entries → Text → Text → Entries
put [] key value = (key, value) ∷ []
put (e ∷ entries) key value =
    if eq_text e.0 key then (key, value) ∷ entries else e ∷ put entries key value

unfoldable pub find : Entries → Text → Option Text
find [] key = none
find (e ∷ entries) key = let later = find entries key in if eq_text e.0 key then some e.1 else later

-- A blank line or a comment.
abbrev pub is_comment : Text → Bool
is_comment [] = true
is_comment (c ∷ cs) = (c == 35) || (c == 59)

unfoldable pub set_entry : Entries → Option (Text × Text) → Bool × Entries
unfolding trim put
set_entry entries none = (false, entries)
set_entry entries (some r) =
    let key = trim r.0 in
    if is_empty key then (false, entries) else (true, put entries key (trim r.1))

-- `parse_line`: whether the line is valid, and the entries after it.
unfoldable pub parse_line : Entries → Text → Bool × Entries
unfolding set_entry trim split_line
parse_line entries line =
    let trimmed = trim line in
    let parsed = set_entry entries (split_line trimmed) in
    if is_comment trimmed then (true, entries) else parsed

-- The lines that `getline` reads, with the characters of the current one.
unfoldable pub lines_from : Text → Text → List Text
lines_from current [] = if is_empty current then [] else current ∷ []
lines_from current (c ∷ cs) =
    let more = lines_from (current ++ (c ∷ [])) cs in
    let next = lines_from [] cs in if c == newline then current ∷ next else more

-- The loop over the lines: whether a line was invalid, and the entries.
unfoldable pub load_lines : Bool → Entries → List Text → Bool × Entries
unfolding parse_line
load_lines has_errors entries [] = (has_errors, entries)
load_lines has_errors entries (line ∷ lines) =
    let r = parse_line entries line in load_lines (has_errors || not r.0) r.1 lines

-- `load_from_file`: its result and the entries, from the content of the file if it can be opened. Invalid
-- lines are only reported.
unfoldable pub load_from_file : Entries → Option Text → Bool × Entries
unfolding load_lines lines_from
load_from_file entries none = (false, [])
load_from_file entries (some content) = (true, (load_lines false [] (lines_from [] content)).1)

-- `std::isspace`, as `std::stoul` skips it.
abbrev pub is_space : ℕ → Bool
is_space c = (c == 32) || (leb 9 c && leb c 13)

unfoldable pub skip_space : Text → Text
skip_space [] = []
skip_space (c ∷ cs) = if is_space c then skip_space cs else c ∷ cs

abbrev pub is_digit : ℕ → Bool
is_digit c = leb 48 c && leb c 57

-- The number that the digits at the head of a text make, after those that make `value`.
unfoldable pub digits_from : ℕ → Text → ℕ
digits_from value [] = value
digits_from value (c ∷ cs) =
    let more = digits_from (value * 10 + (c - 48)) cs in if is_digit c then more else value

-- Digits at the head of a text; a number that does not fit is out of range.
unfoldable pub unsigned_of : Text → Option ℕ
unfolding digits_from
unsigned_of [] = none
unsigned_of (c ∷ cs) =
    let value = digits_from 0 (c ∷ cs) in
    if not (is_digit c) then none else if ltb value (2 ^ 64) then some value else none

-- `std::stoul`: `none` is an exception. A minus sign negates the number in its width.
unfoldable pub signed_of : Text → Option ℕ
unfolding unsigned_of
signed_of [] = none
signed_of (c ∷ cs) =
    if c == 43
    then unsigned_of cs
    else if c == 45
    then elim (unsigned_of cs) [ none ↦ none | some n ↦ some (u64 (2 ^ 64 - n)) ]
    else unsigned_of (c ∷ cs)

unfoldable pub stoul : Text → Option ℕ
unfolding signed_of skip_space
stoul value = signed_of (skip_space value)

abbrev pub number_or : Option ℕ → ℕ → ℕ
number_or none default_value = default_value
number_or (some n) default_value = u32 n

unfoldable pub get_uint32 : Entries → Text → ℕ → ℕ
unfolding stoul find
get_uint32 entries key default_value = elim (find entries key) [
  | none ↦ default_value
  | some value ↦ number_or (stoul value) default_value
]

unfoldable pub get_string : Entries → Text → Text → Text
unfolding find
get_string entries key default_value = elim (find entries key) [
  | none ↦ default_value
  | some value ↦ value
]

unfoldable pub has_key : Entries → Text → Bool
unfolding find
has_key entries key = elim (find entries key) [ none ↦ false | some value ↦ true ]
