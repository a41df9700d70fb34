-- ===== src/Edit/Applied.antt =====
-- What applyUnified makes of a text, in terms of pieces.
use fylane.Common.{◌≡◌, Bool, List, [], ◌++◌, map, All, any}
use fylane.Common.Text.{Text, text_eq, split_on}
use fylane.Edit.Splice.{newline, concat}
use fylane.Edit.Patch.{Progress}
use fylane.Edit.Traced.{Traced}
use fylane.Edit.Pieces.{
  Piece, copied, old_of, new_of, named_of, gone_of, added_of, gather, IsSameLine, is_marker,
  marked_line, marked,
}

-- A line of the patch that names, takes away and adds nothing.
record IsUnmarked (l : Text) : Type 0 where
  no_name : marked_line b' ' l ≡ []
  no_gone : marked_line b'-' l ≡ []
  no_added : marked_line b'+' l ≡ []

-- The pieces after one line of the patch.
abbrev After : Bool → Text → List Text → List Text → List Text → List Text → Progress → Type 0
After loose l src names goes comes =
    Traced loose src (names ++ marked_line b' ' l) (goes ++ marked_line b'-' l)
      (comes ++ marked_line b'+' l)

abbrev rest_of : List Text → List Piece
rest_of = map (λ l. copied l l)

-- A patch with a line that begins with a backslash may take newlines away.
abbrev pub is_loose : Text → Bool
is_loose patch = any is_marker (split_on newline patch)

-- The text after as the text before with lines taken away, added and kept, as the patch says.
pub record IsPatched (patch before after : Text) : Type 0 where
  pub pieces : List Piece
  pub before_is : before ≡ concat (gather old_of pieces)
  pub after_is : after ≡ concat (gather new_of pieces)
  pub context : gather named_of pieces ≡ marked b' ' (split_on newline patch)
  pub deletions : gather gone_of pieces ≡ marked b'-' (split_on newline patch)
  pub additions : gather added_of pieces ≡ marked b'+' (split_on newline patch)
  pub same : All (IsSameLine (is_loose patch)) pieces
