-- ===== src/Edit/Patch.antt =====
-- companion/internal/mcpserver/patch.go: applyUnified, with the regular expression of a hunk's
-- header written out as a parser.
use fylane.Common.{
  ℕ, zero, suc, ◌+◌, ◌-◌, ◌*◌, ◌^◌, Bool, true, false, ◌&&◌, ◌||◌, not, List, [], ◌∷◌, ◌++◌, Option,
  none, some, if◌then◌else◌, ltb, leb, nat_beq, ◌==◌, length, drop, get_elem?,
}
use fylane.Common.Text.{Text, codes, text_eq, has_prefix, split_on}
use fylane.Edit.Splice.{newline, split_after_lines, concat}

pub data PatchError : Type 0 where
  malformed_header content_before_header unexpected_line : Text → PatchError
  out_of_order no_hunks : PatchError
  beyond_end : ℕ → ℕ → PatchError
  expected_empty : ℕ → PatchError
  file_ends : ℕ → Text → ℕ → PatchError
  differs : ℕ → Text → Text → PatchError

pub data Result {ℓ} (A : Type ℓ) : Type ℓ where
  ok : A → Result A
  err : PatchError → Result A

infixl 5 ◌>>=◌
abbrev pub ◌>>=◌ {ℓ κ} : {A : Type ℓ} {B : Type κ} → Result A → (A → Result B) → Result B
ok a >>= f = f a
err e >>= f = err e

-- The variables of the loop. `last_kind` is a byte, 0 after a header.
pub record Progress : Type 0 where
  pub src : List Text
  pub out : List Text
  pub cursor : ℕ
  pub saw_hunk : Bool
  pub last_kind : ℕ

abbrev pub is_digit : ℕ → Bool
is_digit c = leb b'0' c && leb c b'9'

-- \d+, as far as it goes, with what stands behind it.
unfoldable pub digits : Text → Text × Text
digits [] = ([], [])
digits (c ∷ s) = let (d, rest) = digits s in if is_digit c then (c ∷ d, rest) else ([], c ∷ s)

unfoldable pub number : Text → Option (Text × Text)
unfolding digits
number s = let (d, rest) = digits s in if d == [] then none else some (d, rest)

unfoldable pub expect : Text → Text → Option Text
unfolding has_prefix
expect p s = if has_prefix s p then some (drop (length p) s) else none

infixl 5 ◌then_parse◌
abbrev pub ◌then_parse◌ {ℓ κ} : {A : Type ℓ} {B : Type κ} → Option A → (A → Option B) → Option B
none then_parse f = none
some a then_parse f = f a

-- (?:,\d+)?
unfoldable pub optional_count : Text → Option Text
unfolding number
optional_count [] = some []
optional_count (c ∷ s) =
    if nat_beq c b',' then (number s then_parse λ (d, rest). some rest) else some (c ∷ s)

-- hunkHeaderRe: the digits of the first line of the hunk.
unfoldable pub hunk_header : Text → Option Text
unfolding number expect optional_count
hunk_header l = expect (codes "@@ -") l then_parse λ a. number a then_parse λ (from, b).
    optional_count b then_parse λ c. expect (codes " +") c then_parse λ d.
    number d then_parse λ (to, e).
    optional_count e then_parse λ f. expect (codes " @@") f then_parse λ rest. some from

-- strconv.Atoi, on digits: a number that no int holds is refused.
unfoldable pub value_from : ℕ → Text → ℕ
value_from n [] = n
value_from n (c ∷ s) = value_from (n * 10 + (c - b'0')) s

unfoldable pub atoi : Text → Option ℕ
unfolding value_from
atoi d = if leb (2 ^ 63) (value_from 0 d) then none else some (value_from 0 d)

-- strings.TrimSuffix(s, "\n")
unfoldable pub trim_nl : Text → Text
trim_nl [] = []
trim_nl (c ∷ []) = if nat_beq c newline then [] else c ∷ []
trim_nl (c ∷ d ∷ s) = c ∷ trim_nl (d ∷ s)

unfoldable pub context_error : Option Text → ℕ → ℕ → Text → PatchError
unfolding trim_nl
context_error none cursor lines want = file_ends (cursor + 1) want lines
context_error (some l) cursor lines want = differs (cursor + 1) (trim_nl l) want

-- One round of the loop that copies the lines before a hunk.
unfoldable pub copy_line : Option Text → ℕ → Progress → Result Progress
copy_line none from st = err (beyond_end from (length st.src))
copy_line (some l) from st = ok (record st { out = st.out ++ l ∷ []; cursor = st.cursor + 1 })

unfoldable pub copy_lines : ℕ → ℕ → Progress → Result Progress
unfolding copy_line
copy_lines zero from st = ok st
copy_lines (suc n) from st = copy_line (get_elem? st.src st.cursor) from st >>= copy_lines n from

abbrev pub opened : Progress → Result Progress
opened st = ok (record st { saw_hunk = true; last_kind = 0 })

unfoldable pub open_at : ℕ → Progress → Result Progress
unfolding copy_lines
open_at from st =
    let start = from - 1 in
    if ltb start st.cursor
    then err out_of_order
    else copy_lines (start - st.cursor) from st >>= opened

unfoldable pub open_number : Text → Option ℕ → Progress → Result Progress
unfolding open_at
open_number l none st = err (malformed_header l)
open_number l (some from) st = open_at from st

unfoldable pub open_hunk : Text → Option Text → Progress → Result Progress
unfolding open_number atoi
open_hunk l none st = err (malformed_header l)
open_hunk l (some d) st = open_number l (atoi d) st

-- A context line: the line of the file that must have the text.
unfoldable pub keep_line : Option Text → Text → PatchError → Progress → Result Progress
unfolding trim_nl
keep_line none want e st = err e
keep_line (some l) want e st =
    if trim_nl l == want
    then ok (record st { out = st.out ++ l ∷ []; cursor = st.cursor + 1; last_kind = b' ' })
    else err e

unfoldable pub drop_line : Option Text → Text → PatchError → Progress → Result Progress
unfolding trim_nl
drop_line none want e st = err e
drop_line (some l) want e st =
    if trim_nl l == want then ok (record st { cursor = st.cursor + 1; last_kind = b'-' }) else err e

abbrev pub add_line : Text → Progress → Result Progress
add_line l st = ok (record st { out = st.out ++ (l ++ newline ∷ []) ∷ []; last_kind = b'+' })

unfoldable pub trim_last : List Text → List Text
unfolding trim_nl
trim_last [] = []
trim_last (l ∷ []) = trim_nl l ∷ []
trim_last (l ∷ m ∷ ls) = l ∷ trim_last (m ∷ ls)

unfoldable pub no_newline : Progress → Result Progress
unfolding trim_last
no_newline st =
    if nat_beq st.last_kind b'+' || nat_beq st.last_kind b' '
    then ok (record st { out = trim_last st.out })
    else ok st

-- The lines that begin with a blank, a minus, a plus or a backslash.
unfoldable pub content_line : ℕ → Text → Progress → Result Progress
unfolding keep_line drop_line no_newline context_error
content_line c l st =
    let here = get_elem? st.src st.cursor in
    let mismatch = context_error here st.cursor (length st.src) l in
    let in_hunk : Result Progress → Result Progress =
      λ r. if st.saw_hunk then r else err (content_before_header (c ∷ l)) in
    if nat_beq c b' '
    then in_hunk (keep_line here l mismatch st)
    else if nat_beq c b'-'
    then in_hunk (drop_line here l mismatch st)
    else if nat_beq c b'+'
    then in_hunk (add_line l st)
    else if nat_beq c b'\\'
    then no_newline st
    else err (unexpected_line (c ∷ l))

unfoldable pub blank_line : Bool → Progress → Result Progress
unfolding keep_line
blank_line last st =
    if last || not st.saw_hunk
    then ok st
    else keep_line (get_elem? st.src st.cursor) [] (expected_empty (st.cursor + 1)) st

unfoldable pub other_line : Bool → Text → Progress → Result Progress
unfolding content_line blank_line
other_line last [] st = blank_line last st
other_line last (c ∷ l) st = content_line c l st

abbrev pub is_file_header : Text → Bool
is_file_header l = has_prefix l (codes "--- ") || has_prefix l (codes "+++ ")

-- One line of the patch; `last` tells that no line follows.
unfoldable pub apply_line : Bool → Text → Progress → Result Progress
unfolding open_hunk hunk_header other_line has_prefix
apply_line last l st =
    if is_file_header l
    then ok st
    else if has_prefix l (codes "@@")
    then open_hunk l (hunk_header l) st
    else other_line last l st

abbrev pub no_more : List Text → Bool
no_more [] = true
no_more (l ∷ ls) = false

unfoldable pub apply_lines : List Text → Progress → Result Progress
unfolding apply_line
apply_lines [] st = ok st
apply_lines (l ∷ ls) st = apply_line (no_more ls) l st >>= apply_lines ls

-- The end: without a hunk the patch is refused, else the rest of the file is copied.
unfoldable pub close_patch : Progress → Result Text
close_patch st =
    if not st.saw_hunk then err no_hunks else ok (concat (st.out ++ drop st.cursor st.src))

abbrev pub unstarted : Text → Progress
unstarted before = record {
  src = split_after_lines before;
  out = [];
  cursor = 0;
  saw_hunk = false;
  last_kind = 0;
}

unfoldable pub apply_unified : Text → Text → Result Text
unfolding apply_lines close_patch split_on split_after_lines
apply_unified patch before = apply_lines (split_on newline patch) (unstarted before) >>= close_patch
