-- ===== src/Edit/Splice.antt =====
-- companion/internal/mcpserver/edit.go: applyEdits with the edits that it knows.
use fylane.Common.{
  ℕ, zero, suc, ◌+◌, ◌-◌, Bool, ◌&&◌, ◌||◌, not, List, [], ◌∷◌, ◌++◌, if◌then◌else◌, ltb, nat_beq,
  ◌==◌, length, take, drop,
}
use fylane.Common.Text.{Text, codes, text_eq, has_prefix, has_suffix}

pub record EditOp : Type 0 where
  pub edit_type : Text
  pub match_text : Text
  pub content : Text
  pub start_line : ℕ
  pub end_line : ℕ

-- The errors, without the number of the edit.
pub data EditError : Type 0 where
  match_required match_not_found content_required invalid_range : EditError
  match_occurs range_out_of_bounds : ℕ → EditError
  unknown_edit : Text → EditError

pub data Result {ℓ} (A : Type ℓ) : Type ℓ where
  ok : A → Result A
  err : EditError → Result A

abbrev pub newline : ℕ
newline = 10

-- strings.Count, of a text that is not empty: matches do not overlap, and the number says how many
-- bytes of the last match are still to be skipped.
unfoldable pub count : Text → ℕ → Text → ℕ
unfolding has_prefix
count m skip [] = 0
count m (suc skip) (c ∷ s) = count m skip s
count m zero (c ∷ s) =
    let here = has_prefix (c ∷ s) m in
    (if here then 1 else 0) + count m (if here then length m - 1 else 0) s

-- strings.Replace of the first match.
unfoldable pub replace_first : Text → Text → Text → Text
unfolding has_prefix
replace_first m r [] = []
replace_first m r (c ∷ s) =
    let rest = replace_first m r s in
    if has_prefix (c ∷ s) m then r ++ drop (length m) (c ∷ s) else c ∷ rest

unfoldable pub splice_counted : ℕ → Text → Text → Text → Result Text
unfolding replace_first
splice_counted zero cur m r = err match_not_found
splice_counted (suc zero) cur m r = ok (replace_first m r cur)
splice_counted n cur m r = err (match_occurs n)

unfoldable pub splice_unique : Text → Text → Text → Result Text
unfolding splice_counted count
splice_unique cur m r =
    if m == [] then err match_required else splice_counted (count m 0 cur) cur m r

abbrev pub push_byte : ℕ → List Text → List Text
push_byte c [] = (c ∷ []) ∷ []
push_byte c (l ∷ ls) = (c ∷ l) ∷ ls

-- splitAfterLines: each line with its newline.
unfoldable pub split_after_lines : Text → List Text
split_after_lines [] = []
split_after_lines (c ∷ s) =
    let rest = split_after_lines s in
    if nat_beq c newline then (c ∷ []) ∷ rest else push_byte c rest

abbrev pub concat : List Text → Text
concat [] = []
concat (l ∷ ls) = l ++ concat ls

abbrev pub ends_line : Text → Bool
ends_line s = has_suffix s (newline ∷ [])

-- The replacement, with the newline that keeps the lines apart.
unfoldable pub closed_line : Text → Text → ℕ → ℕ → Text
unfolding has_suffix
closed_line cur content end_line lines =
    if not (content == []) && not (ends_line content) && (ltb end_line lines || ends_line cur)
    then content ++ newline ∷ []
    else content

unfoldable pub replace_range : Text → EditOp → Result Text
unfolding split_after_lines closed_line
replace_range cur op =
    let lines = split_after_lines cur in
    if ltb op.start_line 1 || ltb op.end_line op.start_line
    then err invalid_range
    else if ltb (length lines) op.end_line
    then err (range_out_of_bounds (length lines))
    else ok (
        concat (take (op.start_line - 1) lines)
        ++ closed_line cur op.content op.end_line (length lines)
        ++ concat (drop op.end_line lines))

unfoldable pub apply_edit : Text → EditOp → Result Text
unfolding splice_unique replace_range
apply_edit cur op =
    if op.edit_type == codes "replace_exact"
    then splice_unique cur op.match_text op.content
    else if op.edit_type == codes "delete_exact"
    then splice_unique cur op.match_text []
    else if op.edit_type == codes "insert_before"
    then (if op.content == []
        then err content_required
        else splice_unique cur op.match_text (op.content ++ op.match_text))
    else if op.edit_type == codes "insert_after"
    then (if op.content == []
        then err content_required
        else splice_unique cur op.match_text (op.match_text ++ op.content))
    else if op.edit_type == codes "replace_range"
    then replace_range cur op
    else err (unknown_edit op.edit_type)

abbrev pub and_then : Result Text → (Text → Result Text) → Result Text
and_then (ok t) f = f t
and_then (err e) f = err e

unfoldable pub apply_edits : Text → List EditOp → Result Text
unfolding apply_edit
apply_edits cur [] = ok cur
apply_edits cur (e ∷ es) = and_then (apply_edit cur e) (λ next. apply_edits next es)
