-- ===== src/Fs/Names.antt =====
-- fs/fat32.c: names as the user writes them and as a directory entry holds them. A name is the bytes
-- of a C string without the NUL.
pub mod Short
pub mod RoundTrip
use minerva_os.Base.{
  ℕ, zero, suc, ◌+◌, ◌-◌, Bool, true, false, not, ◌&&◌, ◌||◌, if◌then◌else◌, ◌==◌, leb, ltb, List,
  [], ◌∷◌, ◌++◌, Option, none, some, replicate, set, get_or,
}

abbrev pub space : ℕ
space = b' '

abbrev pub dot : ℕ
dot = b'.'

-- `upper_ascii`
abbrev pub upper_ascii : ℕ → ℕ
upper_ascii c = if leb b'a' c && leb c b'z' then c - b'a' + b'A' else c

-- `valid_short_name_char`
abbrev pub valid_short_name_char : ℕ → Bool
valid_short_name_char c0 =
    let c = upper_ascii c0 in
    (leb b'A' c && leb c b'Z') || (leb b'0' c && leb c b'9') || c == b'_' || c == b'-' || c == b'~'

-- The first loop of `make_short_name`: the characters not read, and the field.
unfoldable pub base_loop : List ℕ → ℕ → List ℕ → List ℕ × List ℕ
base_loop [] pos out = ([], out)
base_loop (c ∷ cs) pos out =
    let rest = base_loop cs (pos + 1) (set out pos (upper_ascii c)) in
    if not (c == dot) && ltb pos 8 then rest else (c ∷ cs, out)

-- `if (*name == '.') name++;`
abbrev pub skip_dot : List ℕ → List ℕ
skip_dot [] = []
skip_dot (c ∷ cs) = if c == dot then cs else c ∷ cs

-- The second loop.
unfoldable pub ext_loop : List ℕ → ℕ → List ℕ → List ℕ
ext_loop [] pos out = out
ext_loop (c ∷ cs) pos out =
    let rest = ext_loop cs (pos + 1) (set out pos (upper_ascii c)) in
    if ltb pos 11 then rest else out

-- `make_short_name`
unfoldable pub make_short_name : List ℕ → List ℕ
make_short_name name =
    let (rest, out) = base_loop name 0 (replicate 11 space) in ext_loop (skip_dot rest) 8 out

-- The loop up to the dot of `make_short_name_checked`: the characters not read, `base_len` and the
-- field, or `none` where it returns 0.
unfoldable pub checked_base : List ℕ → ℕ → List ℕ → Option (List ℕ × ℕ × List ℕ)
checked_base [] base_len out = some ([], base_len, out)
checked_base (c ∷ cs) base_len out =
    let rest = checked_base cs (base_len + 1) (set out base_len (upper_ascii c)) in
    if c == dot
    then some (c ∷ cs, base_len, out)
    else if leb 8 base_len || not (valid_short_name_char c)
    then none
    else rest

-- The loop behind the dot.
unfoldable pub checked_ext : List ℕ → ℕ → List ℕ → Option (ℕ × List ℕ)
checked_ext [] ext_len out = some (ext_len, out)
checked_ext (c ∷ cs) ext_len out =
    let rest = checked_ext cs (ext_len + 1) (set out (8 + ext_len) (upper_ascii c)) in
    if leb 3 ext_len || c == dot || not (valid_short_name_char c) then none else rest

-- `make_short_name_checked` from the test of the dot on.
unfoldable pub checked_rest : List ℕ → List ℕ → Option (List ℕ)
checked_rest [] out = some out
checked_rest (c ∷ cs) out =
    if c == dot
    then elim (checked_ext cs 0 out) [
      | none ↦ none
      | some (ext_len, out') ↦ if ext_len == 0 then none else some out'
    ]
    else none

-- `make_short_name_checked` of a name that is not NULL: the field, or `none` for 0.
unfoldable pub make_short_name_checked : List ℕ → Option (List ℕ)
make_short_name_checked [] = none
make_short_name_checked (c ∷ cs) = elim (checked_base (c ∷ cs) 0 (replicate 11 space)) [
  | none ↦ none
  | some (rest, base_len, out) ↦ if base_len == 0 then none else checked_rest rest out
]

-- A loop of `short_name_to_string` over at most `left` characters from the index `i` on.
unfoldable pub copy_loop : ℕ → ℕ → List ℕ → List ℕ
copy_loop zero i field = []
copy_loop (suc left) i field =
    let c = get_or field i space in
    let rest = copy_loop left (i + 1) field in if c == space then [] else c ∷ rest

-- `short_name_to_string` of the field `name` of an entry.
unfoldable pub short_name_to_string : List ℕ → List ℕ
short_name_to_string field =
    let ext = dot ∷ copy_loop 3 8 field in
    copy_loop 8 0 field ++ (if get_or field 8 space == space then [] else ext)
