-- ===== src/Edit/Tests.antt =====
-- The theorems about edits at concrete inputs, and runs of the code.
mod Files
use fylane.Common.{◌≡◌, refl, [], ◌∷◌}
use fylane.Common.Text.{Text, codes, text_beq, has_byte, has_prefix, has_suffix}
use fylane.Edit.Patch
use fylane.Edit.Patch.{apply_unified, beyond_end, hunk_header, atoi}
use fylane.Edit.Hunk.{keep, cut, put}
use fylane.Edit.Hunks.{Hunk, apply_unified-text_of}
use fylane.Edit.Splice.{
  EditOp, ok, err, match_occurs, count, splice_unique, split_after_lines, replace_range,
}
use fylane.Edit.Unique.{Spliced, splice_unique-Spliced}
use fylane.Edit.Range.{Ranged, replace_range-Ranged}

one_match : splice_unique (codes "a = b;") (codes "b") (codes "c") ≡ ok (codes "a = c;")
unfolding splice_unique count has_prefix text_beq
one_match = refl

splice_unique-Spliced_example : Spliced (codes "a = b;") (codes "b") (codes "c") (codes "a = c;")
splice_unique-Spliced_example =
    splice_unique-Spliced (codes "a = b;") (codes "b") (codes "c") (codes "a = c;") one_match

two_matches : splice_unique (codes "b = b;") (codes "b") (codes "c") ≡ err (match_occurs 2)
unfolding splice_unique count has_prefix text_beq
two_matches = refl

-- The match stands at two places, which overlap: the count is one, and the first is taken.
overlapping : splice_unique (codes "aaa") (codes "aa") (codes "x") ≡ ok (codes "xa")
unfolding splice_unique count has_prefix text_beq
overlapping = refl

abbrev second_line : EditOp
second_line = record {
  edit_type = codes "replace_range";
  match_text = [];
  content = codes "x";
  start_line = 2;
  end_line = 2;
}

second_replaced : replace_range (codes "a\nb\nc\n") second_line ≡ ok (codes "a\nx\nc\n")
unfolding replace_range split_after_lines has_suffix has_prefix text_beq
second_replaced = refl

replace_range-Ranged_example : Ranged (codes "a\nb\nc\n") (codes "a\nx\nc\n") second_line
replace_range-Ranged_example =
    replace_range-Ranged (codes "a\nb\nc\n") (codes "a\nx\nc\n") second_line second_replaced

abbrev greeting : Text
greeting = codes "a\nb\nc\n"

abbrev greeting_patch : Text
greeting_patch = codes "--- x\n+++ x\n@@ -1,3 +1,3 @@\n a\n-b\n+d\n c\n"

-- An added line that begins with two plus signs and a blank is taken for a file header: it is lost
-- without an error.
lost_addition :
    apply_unified (codes "@@ -1,1 +1,2 @@\n a\n+++ i;\n") (codes "a\n") ≡ Patch.ok (codes "a\n")
unfolding apply_unified text_beq
lost_addition = refl

-- The last line of a file without a newline at its end matches a context line, and an addition
-- behind it is joined to it.
joined_lines :
    apply_unified (codes "@@ -1,1 +1,2 @@\n a\n+b\n") (codes "a") ≡ Patch.ok (codes "ab\n")
unfolding apply_unified text_beq
joined_lines = refl

beyond : apply_unified (codes "@@ -9,1 +9,1 @@\n a\n") (codes "a\n") ≡ Patch.err (beyond_end 9 1)
unfolding apply_unified text_beq
beyond = refl

abbrev one_hunk : Hunk
one_hunk = record {
  header = codes "@@ -2,2 +2,2 @@";
  skipped = codes "a" ∷ [];
  lines = keep (codes "b") ∷ cut (codes "c") ∷ put (codes "d") ∷ [];
}

apply_unified-text_of_example :
    apply_unified (codes "@@ -2,2 +2,2 @@\n b\n-c\n+d\n") (codes "a\nb\nc\ne\n")
    ≡ Patch.ok (codes "a\nb\nd\ne\n")
unfolding hunk_header atoi has_byte has_prefix text_beq
apply_unified-text_of_example =
    apply_unified-text_of one_hunk [] (codes "e" ∷ []) ((codes "2", refl, refl), tt)
      ((tt, (refl, (refl, tt))), tt) (refl, (refl, (refl, (refl, tt))))
      (refl, (refl, (refl, (refl, tt))))
