-- ===== src/Edit/Pieces.antt =====
-- A change of a text as a sequence of pieces, each a line that stays, goes or comes: what a patch
-- is meant to do, apart from how it is read.
use mathlib.Core.List.{append-nil, append_assoc}
use fylane.Common.{
  ℕ, ◌≡◌, refl, sym, ap, ◌∙◌, Bool, true, false, ◌&&◌, List, [], ◌∷◌, ◌++◌, if◌then◌else◌, if_cases,
  nat_beq, All,
}
use fylane.Common.Text.{Text}
use fylane.Edit.Splice.{newline}
use fylane.Edit.Patch.{trim_nl, trim_last, is_file_header}

-- A line that stays, or that the patch adds, with what becomes of it in the text after.
pub data Piece : Type 0 where
  copied named added : Text → Text → Piece
  gone : Text → Piece

abbrev pub old_of : Piece → List Text
old_of (copied l m) = l ∷ []
old_of (named l m) = l ∷ []
old_of (gone l) = l ∷ []
old_of (added l m) = []

abbrev pub new_of : Piece → List Text
new_of (copied l m) = m ∷ []
new_of (named l m) = m ∷ []
new_of (gone l) = []
new_of (added l m) = m ∷ []

abbrev pub named_of : Piece → List Text
named_of (named l m) = trim_nl l ∷ []
named_of p = []

abbrev pub gone_of : Piece → List Text
gone_of (gone l) = trim_nl l ∷ []
gone_of p = []

abbrev is_nil : Text → Bool
is_nil [] = true
is_nil (c ∷ s) = false

-- A line without the newlines at its end.
unfoldable pub bare : Text → Text
bare [] = []
bare (c ∷ s) = let r = bare s in if nat_beq c newline && is_nil r then [] else c ∷ r

abbrev pub added_of : Piece → List Text
added_of (added l m) = l ∷ []
added_of p = []

abbrev pub gather : (Piece → List Text) → List Piece → List Text
gather f [] = []
gather f (p ∷ ps) = f p ++ gather f ps

-- A kept line is the same byte for byte, and an added line is the patch's with a newline behind it;
-- where the patch is loose, each is so up to newlines at its end.
abbrev pub IsSameLine : Bool → Piece → Type 0
IsSameLine false (copied l m) = m ≡ l
IsSameLine false (named l m) = m ≡ l
IsSameLine false (added l m) = m ≡ l ++ newline ∷ []
IsSameLine true (copied l m) = bare m ≡ bare l
IsSameLine true (named l m) = bare m ≡ bare l
IsSameLine true (added l m) = bare m ≡ bare l
IsSameLine loose (gone l) = Unit

pub IsSameLine-copied : (loose : Bool) (l : Text) → IsSameLine loose (copied l l)
IsSameLine-copied true l = refl
IsSameLine-copied false l = refl

pub IsSameLine-named : (loose : Bool) (l : Text) → IsSameLine loose (named l l)
IsSameLine-named true l = refl
IsSameLine-named false l = refl

-- `\ No newline at end of file`, or any other line that begins with a backslash.
abbrev pub is_marker : Text → Bool
is_marker [] = false
is_marker (c ∷ l) = nat_beq c b'\\'

-- The lines of a patch that begin with the byte, without it. A line that looks like a file header
-- is none of them.
abbrev pub marked_line : ℕ → Text → List Text
marked_line c [] = []
marked_line c (d ∷ l) = if is_file_header (d ∷ l) then [] else if nat_beq d c then l ∷ [] else []

abbrev pub marked : ℕ → List Text → List Text
marked c [] = []
marked c (l ∷ ls) = marked_line c l ++ marked c ls

pub bare-trim_nl : (l : Text) → bare (trim_nl l) ≡ bare l
unfolding bare trim_nl
bare-trim_nl [] = refl
bare-trim_nl (c ∷ []) =
    if_cases (λ r. bare r ≡ bare (c ∷ [])) (nat_beq c newline) [] (c ∷ []) (λ h. rw h) (λ _. refl)
bare-trim_nl (c ∷ d ∷ s) =
    let ih = bare-trim_nl (d ∷ s) in
    ap (λ (r : Text). if nat_beq c newline && is_nil r then [] else c ∷ r) ih

pub bare-ended : (l : Text) → bare (l ++ newline ∷ []) ≡ bare l
unfolding bare
bare-ended [] = refl
bare-ended (c ∷ s) =
    ap (λ (r : Text). if nat_beq c newline && is_nil r then [] else c ∷ r) (bare-ended s)

pub trim_nl-ended : (l : Text) → trim_nl (l ++ newline ∷ []) ≡ l
unfolding trim_nl
trim_nl-ended [] = refl
trim_nl-ended (c ∷ []) = refl
trim_nl-ended (c ∷ d ∷ s) = ap (◌∷◌ c) (trim_nl-ended (d ∷ s))

pub gather-snoc :
    (f : Piece → List Text) (ps : List Piece) (p : Piece)
    → gather f (ps ++ p ∷ []) ≡ gather f ps ++ f p
gather-snoc f [] p = append-nil (f p)
gather-snoc f (q ∷ ps) p =
    ap (λ r. f q ++ r) (gather-snoc f ps p) ∙ sym (append_assoc (f q) (gather f ps) (f p))

-- The pieces after the newline at the end of the new text was taken away.
abbrev pub trim_piece : Piece → Piece
trim_piece (copied l m) = copied l (trim_nl m)
trim_piece (named l m) = named l (trim_nl m)
trim_piece (gone l) = gone l
trim_piece (added l m) = added l (trim_nl m)

abbrev no_lines : List Text → Bool
no_lines [] = true
no_lines (l ∷ ls) = false

unfoldable pub trim_pieces : List Piece → List Piece
trim_pieces [] = []
trim_pieces (p ∷ ps) =
    let rest = trim_pieces ps in if no_lines (gather new_of ps) then trim_piece p ∷ ps else p ∷ rest

no_lines-nil : (ls : List Text) → no_lines ls ≡ true → ls ≡ []
no_lines-nil [] h = refl
no_lines-nil (l ∷ ls) h = cc

trim_last_cons :
    (l : Text) (ls : List Text)
    → trim_last (l ∷ ls) ≡ (if no_lines ls then trim_nl l ∷ ls else l ∷ trim_last ls)
unfolding trim_last
trim_last_cons l [] = refl
trim_last_cons l (m ∷ ls) = refl

gather-trim_pieces :
    (f : Piece → List Text) (ps : List Piece)
    → ((p : Piece) → f (trim_piece p) ≡ f p)
    → gather f (trim_pieces ps) ≡ gather f ps
unfolding trim_pieces
gather-trim_pieces f [] same = refl
gather-trim_pieces f (p ∷ ps) same =
    if_cases (λ r. gather f r ≡ f p ++ gather f ps) (no_lines (gather new_of ps))
      (trim_piece p ∷ ps) (p ∷ trim_pieces ps) (λ _. ap (λ r. r ++ gather f ps) (same p))
      (λ _. ap (λ r. f p ++ r) (gather-trim_pieces f ps same))

new_of-trim_piece :
    (p : Piece) (ls : List Text)
    → no_lines ls ≡ true
    → new_of (trim_piece p) ++ ls ≡ trim_last (new_of p ++ ls)
unfolding trim_last
new_of-trim_piece p ls h = let e = no_lines-nil ls h in rw e (by_piece p)
  where
    by_piece : (q : Piece) → new_of (trim_piece q) ++ [] ≡ trim_last (new_of q ++ [])
    by_piece (copied l m) = refl
    by_piece (named l m) = refl
    by_piece (gone l) = refl
    by_piece (added l m) = refl

new_of-rest :
    (p : Piece) (ls : List Text)
    → no_lines ls ≡ false
    → new_of p ++ trim_last ls ≡ trim_last (new_of p ++ ls)
new_of-rest (copied l m) ls h = sym (trim_last_cons m ls ∙ rw h)
new_of-rest (named l m) ls h = sym (trim_last_cons m ls ∙ rw h)
new_of-rest (gone l) ls h = refl
new_of-rest (added l m) ls h = sym (trim_last_cons m ls ∙ rw h)

pub new_lines-trim_pieces :
    (ps : List Piece) → gather new_of (trim_pieces ps) ≡ trim_last (gather new_of ps)
unfolding trim_pieces trim_last
new_lines-trim_pieces [] = refl
new_lines-trim_pieces (p ∷ ps) =
    if_cases (λ r. gather new_of r ≡ trim_last (new_of p ++ gather new_of ps))
      (no_lines (gather new_of ps)) (trim_piece p ∷ ps) (p ∷ trim_pieces ps)
      (new_of-trim_piece p (gather new_of ps))
      (λ h. ap (λ r. new_of p ++ r) (new_lines-trim_pieces ps) ∙ new_of-rest p (gather new_of ps) h)

IsSameLine-trim_piece : (p : Piece) → IsSameLine true p → IsSameLine true (trim_piece p)
IsSameLine-trim_piece (copied l m) h = bare-trim_nl m ∙ h
IsSameLine-trim_piece (named l m) h = bare-trim_nl m ∙ h
IsSameLine-trim_piece (gone l) h = tt
IsSameLine-trim_piece (added l m) h = bare-trim_nl m ∙ h

pub IsSameLine-trim_pieces :
    (ps : List Piece) → All (IsSameLine true) ps → All (IsSameLine true) (trim_pieces ps)
unfolding trim_pieces
IsSameLine-trim_pieces [] h = tt
IsSameLine-trim_pieces (p ∷ ps) (h, hs) =
    if_cases (All (IsSameLine true)) (no_lines (gather new_of ps)) (trim_piece p ∷ ps)
      (p ∷ trim_pieces ps) (λ _. (IsSameLine-trim_piece p h, hs))
      (λ _. (h, IsSameLine-trim_pieces ps hs))

old_of-trim_piece : (p : Piece) → old_of (trim_piece p) ≡ old_of p
old_of-trim_piece (copied l m) = refl
old_of-trim_piece (named l m) = refl
old_of-trim_piece (gone l) = refl
old_of-trim_piece (added l m) = refl

named_of-trim_piece : (p : Piece) → named_of (trim_piece p) ≡ named_of p
named_of-trim_piece (copied l m) = refl
named_of-trim_piece (named l m) = refl
named_of-trim_piece (gone l) = refl
named_of-trim_piece (added l m) = refl

gone_of-trim_piece : (p : Piece) → gone_of (trim_piece p) ≡ gone_of p
gone_of-trim_piece (copied l m) = refl
gone_of-trim_piece (named l m) = refl
gone_of-trim_piece (gone l) = refl
gone_of-trim_piece (added l m) = refl

added_of-trim_piece : (p : Piece) → added_of (trim_piece p) ≡ added_of p
added_of-trim_piece (copied l m) = refl
added_of-trim_piece (named l m) = refl
added_of-trim_piece (gone l) = refl
added_of-trim_piece (added l m) = refl

-- Taking away the last newline changes nothing else of the pieces.
pub trim_pieces_same :
    (ps : List Piece)
    → (gather old_of (trim_pieces ps) ≡ gather old_of ps)
      × (gather named_of (trim_pieces ps) ≡ gather named_of ps)
      × (gather gone_of (trim_pieces ps) ≡ gather gone_of ps)
      × (gather added_of (trim_pieces ps) ≡ gather added_of ps)
trim_pieces_same ps = (
  gather-trim_pieces old_of ps old_of-trim_piece,
  gather-trim_pieces named_of ps named_of-trim_piece,
  gather-trim_pieces gone_of ps gone_of-trim_piece,
  gather-trim_pieces added_of ps added_of-trim_piece,
)
