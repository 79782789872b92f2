-- ===== src/Config/Reload.antt =====
-- sdr-udp/src/config_parser.cpp: a file of entries, written one to a line, and what the parser makes of
-- it.
use sdr_rdma_udp.Common.{
  ℕ, ◌≡◌, refl, sym, ap, ◌∙◌, inl, inr, Bool, true, false, not, ◌&&◌, ◌||◌, Option, none, some,
  List, [], ◌∷◌, ◌++◌, ◌==◌, if◌then◌else◌, arith, Bool-cases, ==_iff, &&_iff,
}
use mathlib.Core.List.{append-nil, append_assoc}
use sdr_rdma_udp.Config.{
  Text, newline, equals_sign, is_blank, trim_left, is_empty, trim_right, trim, eq_text, split_line,
  Entries, put, find, set_entry, parse_line, lines_from, load_lines, load_from_file, get_string,
  has_key,
}

-- A character does not occur in a text.
abbrev pub lacks : ℕ → Text → Bool
lacks c [] = true
lacks c (d ∷ ds) = not (d == c) && lacks c ds

-- An entry that a line can hold: the key begins with a character that is neither blank nor a comment's,
-- neither text has blanks at its ends or a newline in it, and the key has no equals sign.
pub record IsClean (e : Text × Text) : Type 0 where
  pub first : ℕ
  pub others : Text
  pub begins : e.0 ≡ first ∷ others
  pub not_blank : is_blank first ≡ false
  pub not_comment : ((first == 35) || (first == 59)) ≡ false
  pub key_end : trim_right e.0 ≡ e.0
  pub value_start : trim_left e.1 ≡ e.1
  pub value_end : trim_right e.1 ≡ e.1
  pub no_equals : lacks equals_sign e.0 ≡ true
  pub one_line : lacks newline e.0 ≡ true
  pub value_line : lacks newline e.1 ≡ true

abbrev pub line_of : Text × Text → Text
line_of e = e.0 ++ (equals_sign ∷ e.1)

-- The file of some entries.
abbrev pub file_of : List (Text × Text) → Text
file_of [] = []
file_of (e ∷ es) = line_of e ++ (newline ∷ file_of es)

-- The value that was written last for a key.
abbrev pub last_value : List (Text × Text) → Text → Option Text → Option Text
last_value [] key found = found
last_value (e ∷ es) key found = last_value es key (if eq_text e.0 key then some e.1 else found)

pub data AllClean : List (Text × Text) → Type 0 where
  no_entries : AllClean []
  one_more :
      {e : Text × Text} {es : List (Text × Text)} → IsClean e → AllClean es → AllClean (e ∷ es)

trim_left_first : (c : ℕ) (cs : Text) → is_blank c ≡ false → trim_left (c ∷ cs) ≡ c ∷ cs
unfolding trim_left
trim_left_first c cs h = rw h refl

some_left : (cs : Text) (d : ℕ) (ds : Text) → is_empty (cs ++ (d ∷ ds)) ≡ false
some_left [] d ds = refl
some_left (c ∷ cs) d ds = refl

trim_right_tail :
    (cs : Text) (d : ℕ) (ds : Text)
    → trim_right (d ∷ ds) ≡ d ∷ ds
    → trim_right (cs ++ (d ∷ ds)) ≡ cs ++ (d ∷ ds)
unfolding trim_right
trim_right_tail [] d ds h = h
trim_right_tail (c ∷ cs) d ds h =
    rw (trim_right_tail cs d ds h, some_left cs d ds)
      (elim (Bool-cases (is_blank c)) [ inl t ↦ rw t refl | inr f ↦ rw f refl ])

trim_right_equals : (v : Text) → trim_right v ≡ v → trim_right (equals_sign ∷ v) ≡ equals_sign ∷ v
unfolding trim_right is_blank
trim_right_equals v h = rw h refl

split_line_lem :
    (key value : Text)
    → lacks equals_sign key ≡ true
    → split_line (key ++ (equals_sign ∷ value)) ≡ some (key, value)
unfolding split_line
split_line_lem [] value h = refl
split_line_lem (c ∷ cs) value h =
    let other : (c == equals_sign) ≡ false = ground arith in
    rw (other, split_line_lem cs value (ground arith)) refl

-- The line of an entry whose key is `c ∷ cs`.
parse_line_clean :
    (entries : Entries) (c : ℕ) (cs value : Text)
    → is_blank c ≡ false
    → ((c == 35) || (c == 59)) ≡ false
    → trim_right (c ∷ cs) ≡ c ∷ cs
    → trim_left value ≡ value
    → trim_right value ≡ value
    → lacks equals_sign (c ∷ cs) ≡ true
    → parse_line entries (line_of (c ∷ cs, value)) ≡ (true, put entries (c ∷ cs) value)
unfolding parse_line set_entry trim
parse_line_clean entries c cs value filled plain key_end value_start value_end no_equals =
    rw
      (
        trim_left_first c (cs ++ (equals_sign ∷ value)) filled,
        trim_right_tail (c ∷ cs) equals_sign value (trim_right_equals value value_end),
        plain,
        split_line_lem (c ∷ cs) value no_equals,
        trim_left_first c cs filled,
        key_end,
        value_start,
        value_end,
      )
      refl

parse_line_lem :
    (entries : Entries) (e : Text × Text)
    → IsClean e
    → parse_line entries (line_of e) ≡ (true, put entries e.0 e.1)
parse_line_lem entries e h = rw h.begins (
    parse_line_clean entries h.first h.others e.1 h.not_blank h.not_comment
      (rw h.begins at h.key_end) h.value_start h.value_end (rw h.begins at h.no_equals))

lines_from_lem :
    (current line rest : Text)
    → lacks newline line ≡ true
    → lines_from current (line ++ (newline ∷ rest)) ≡ (current ++ line) ∷ lines_from [] rest
unfolding lines_from
lines_from_lem current [] rest h = ap (λ x. x ∷ lines_from [] rest) (sym (append-nil current))
lines_from_lem current (c ∷ cs) rest h =
    let other : (c == newline) ≡ false = ground arith in
    rw other (
      lines_from_lem (current ++ (c ∷ [])) cs rest (ground arith)
      ∙ ap (λ x. x ∷ lines_from [] rest) (append_assoc current (c ∷ []) cs))

lacks-append :
    (c : ℕ) (xs ys : Text) → lacks c xs ≡ true → lacks c ys ≡ true → lacks c (xs ++ ys) ≡ true
lacks-append c [] ys h k = k
lacks-append c (x ∷ xs) ys h k = ground (arith, lacks-append c xs ys)

eq_text_refl : (xs : Text) → eq_text xs xs ≡ true
eq_text_refl [] = refl
eq_text_refl (x ∷ xs) = ground (arith, eq_text_refl xs)

pub eq_text_sound : (xs ys : Text) → eq_text xs ys ≡ true → xs ≡ ys
eq_text_sound [] [] h = refl
eq_text_sound [] (y ∷ ys) h = cc h
eq_text_sound (x ∷ xs) [] h = cc h
eq_text_sound (x ∷ xs) (y ∷ ys) h =
    let b = (&&_iff (x == y) (eq_text xs ys)).0 h in
    let e : x ≡ y = (==_iff x y).0 b.0 in let es = eq_text_sound xs ys b.1 in cc (e, es)

pub find-put :
    (entries : Entries) (key value other : Text)
    → find (put entries key value) other
      ≡ (if eq_text key other then some value else find entries other)
unfolding find put
find-put [] key value other = refl
find-put (x ∷ entries) key value other = elim (Bool-cases (eq_text x.0 key)) [
  | inl t ↦
      let e = eq_text_sound x.0 key t in
      rw (t, e) (elim (Bool-cases (eq_text key other)) [ inl y ↦ rw y refl | inr z ↦ rw z refl ])
  | inr n ↦
      rw (n, find-put entries key value other)
        (elim (Bool-cases (eq_text x.0 other)) [
          | inr z ↦ rw z refl
          | inl y ↦ elim (Bool-cases (eq_text key other)) [
            | inr z ↦ rw z refl
            | inl z ↦
                let same : x.0 ≡ key =
                  eq_text_sound x.0 other y ∙ sym (eq_text_sound key other z) in
                let both : eq_text x.0 key ≡ true =
                  ap (λ k. eq_text k key) same ∙ eq_text_refl key in
                cc (both, n)
          ]
        ])
]

-- The entries after some lines, from those before.
pub load_lines_lem :
    (has_errors : Bool) (entries : Entries) (es : List (Text × Text)) (key : Text)
    → AllClean es
    → find (load_lines has_errors entries (lines_from [] (file_of es))).1 key
      ≡ last_value es key (find entries key)
unfolding load_lines lines_from
load_lines_lem has_errors entries [] key no_entries = refl
load_lines_lem has_errors entries (e ∷ es) key (one_more h hs) =
    let line : lacks newline (line_of e) ≡ true =
      lacks-append newline e.0 (equals_sign ∷ e.1) h.one_line (ground (arith, h.value_line)) in
    rw (lines_from_lem [] (line_of e) (file_of es) line, load_lines, parse_line_lem entries e h)
      (load_lines_lem (has_errors || false) (put entries e.0 e.1) es key hs
        ∙ ap (last_value es key) (find-put entries e.0 e.1 key))

abbrev pub value_or : Option Text → Text → Text
value_or none default_value = default_value
value_or (some value) default_value = value

abbrev pub is_present : Option Text → Bool
is_present none = false
is_present (some value) = true

-- For entries whose texts have no blanks at their ends and no newline, whose keys have no equals
-- sign and begin with a character that starts no comment: load_from_file on the file that has each
-- of them on a line, with an equals sign between key and value, returns true whatever was loaded
-- before; afterwards get_string gives for each key the value that stands last in the file, and the
-- default for a key that it does not have, and has_key says whether it has the key.
pub load_from_file-file_of :
    (old : Entries) (es : List (Text × Text)) (key default_value : Text)
    → AllClean es
    → ((load_from_file old (some (file_of es))).0 ≡ true)
      × (get_string (load_from_file old (some (file_of es))).1 key default_value
          ≡ value_or (last_value es key none) default_value)
      × (has_key (load_from_file old (some (file_of es))).1 key
          ≡ is_present (last_value es key none))
unfolding load_from_file get_string has_key find
load_from_file-file_of old es key default_value clean =
    let found = load_lines_lem false [] es key clean in
    (
      refl,
      rw (get_string, found) (shown (last_value es key none)),
      rw (has_key, found) (known (last_value es key none)),
    )
  where
    shown :
        (o : Option Text)
        → (elim o [ none ↦ default_value | some value ↦ value ]) ≡ value_or o default_value
    shown none = refl
    shown (some value) = refl

    known : (o : Option Text) → (elim o [ none ↦ false | some value ↦ true ]) ≡ is_present o
    known none = refl
    known (some value) = refl
