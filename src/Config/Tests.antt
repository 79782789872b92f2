-- ===== src/Config/Tests.antt =====
-- A file of three entries, two of them for one key.
use sdr_rdma_udp.Common.{◌-◌, ◌^◌, ◌≡◌, refl, true, some, List, [], ◌∷◌}
use sdr_rdma_udp.Config.{
  get_uint32, find, stoul, skip_space, signed_of, unsigned_of, digits_from, Text, load_from_file,
  get_string, has_key, trim_left, trim_right, is_blank,
}
use sdr_rdma_udp.Config.Reload.{
  IsClean, AllClean, no_entries, one_more, file_of, load_from_file-file_of,
}

-- `rto=9`, `ip=a b` and `rto=12`.
abbrev rto : Text
rto = b'r' ∷ b't' ∷ b'o' ∷ []

abbrev ip : Text
ip = b'i' ∷ b'p' ∷ []

abbrev entries : List (Text × Text)
entries = (rto, b'9' ∷ []) ∷ (ip, b'a' ∷ b' ' ∷ b'b' ∷ []) ∷ (rto, b'1' ∷ b'2' ∷ []) ∷ []

old_rto-IsClean : IsClean (rto, b'9' ∷ [])
unfolding is_blank trim_left trim_right
old_rto-IsClean = record {
  first = b'r';
  others = b't' ∷ b'o' ∷ [];
  begins = refl;
  not_blank = refl;
  not_comment = refl;
  key_end = refl;
  value_start = refl;
  value_end = refl;
  no_equals = refl;
  one_line = refl;
  value_line = refl;
}

ip-IsClean : IsClean (ip, b'a' ∷ b' ' ∷ b'b' ∷ [])
unfolding is_blank trim_left trim_right
ip-IsClean = record {
  first = b'i';
  others = b'p' ∷ [];
  begins = refl;
  not_blank = refl;
  not_comment = refl;
  key_end = refl;
  value_start = refl;
  value_end = refl;
  no_equals = refl;
  one_line = refl;
  value_line = refl;
}

rto-IsClean : IsClean (rto, b'1' ∷ b'2' ∷ [])
unfolding is_blank trim_left trim_right
rto-IsClean = record {
  first = b'r';
  others = b't' ∷ b'o' ∷ [];
  begins = refl;
  not_blank = refl;
  not_comment = refl;
  key_end = refl;
  value_start = refl;
  value_end = refl;
  no_equals = refl;
  one_line = refl;
  value_line = refl;
}

entries-AllClean : AllClean entries
entries-AllClean = one_more old_rto-IsClean (one_more ip-IsClean (one_more rto-IsClean no_entries))

load_from_file-file_of_example :
    ((load_from_file [] (some (file_of entries))).0 ≡ true)
    × (get_string (load_from_file [] (some (file_of entries))).1 rto [] ≡ b'1' ∷ b'2' ∷ [])
    × (has_key (load_from_file [] (some (file_of entries))).1 rto ≡ true)
load_from_file-file_of_example = load_from_file-file_of [] entries rto [] entries-AllClean

-- ` 12x` reads as 12, and `-1` as the largest number of 32 bits; `x` is no number.
get_uint32-stoul :
    (get_uint32 ((rto, b' ' ∷ b'1' ∷ b'2' ∷ b'x' ∷ []) ∷ []) rto 7 ≡ 12)
    × (get_uint32 ((rto, b'-' ∷ b'1' ∷ []) ∷ []) rto 7 ≡ 2 ^ 32 - 1)
    × (get_uint32 ((rto, b'x' ∷ []) ∷ []) rto 7 ≡ 7)
unfolding get_uint32 find stoul skip_space signed_of unsigned_of digits_from
get_uint32-stoul = (refl, refl, refl)
