-- ===== src/Edit/Hunks.antt =====
-- A patch of several hunks, written from the changes that they stand for, applies.
use mathlib.Core.List.{append_assoc, map-append}
use fylane.Common.{
  ℕ, suc, ◌+◌, ◌≡◌, refl, sym, ap, ◌∙◌, Bool, true, false, List, [], ◌∷◌, ◌++◌, map, nat_beq,
  length, drop, drop_append, All, length-append, arith,
}
use fylane.Common.Text.{Text, has_prefix, has_byte, split_on}
use fylane.Edit.Splice.{newline, split_after_lines, concat}
use fylane.Edit.Patch.{
  ok, Progress, other_line, blank_line, apply_line, apply_lines, no_more, close_patch,
  apply_unified,
}
use fylane.Edit.Hunk.{
  Line, old_line, new_line, each_line, render_line, IsPlain, ended, progress, kind_after,
  content-Applies, Names, opens,
}

-- A hunk: its header, the lines of the file that are skipped before it, and its own lines.
pub record Hunk : Type 0 where
  pub header : Text
  pub skipped : List Text
  pub lines : List Line

abbrev pub old_lines : Hunk → List Text
old_lines h = each_line old_line h.lines

-- The lines of the file before and after, with what stands behind the last hunk.
abbrev pub file_before : List Hunk → List Text → List Text
file_before [] post = post
file_before (h ∷ hs) post = h.skipped ++ (each_line old_line h.lines ++ file_before hs post)

abbrev pub file_after : List Hunk → List Text → List Text
file_after [] post = post
file_after (h ∷ hs) post = h.skipped ++ (each_line new_line h.lines ++ file_after hs post)

abbrev pub patch_lines : List Hunk → List Text
patch_lines [] = []
patch_lines (h ∷ hs) = h.header ∷ (map render_line h.lines ++ patch_lines hs)

abbrev pub text_of : List Text → Text
text_of ls = concat (ended ls)

-- Each header names the first line of its hunk in the file before, from the line n on.
abbrev pub Numbered : ℕ → List Hunk → Type 0
Numbered n [] = Unit
Numbered n (h ∷ hs) =
    Names h.header (suc (n + length h.skipped))
    × Numbered (n + length h.skipped + length (each_line old_line h.lines)) hs

abbrev pub AllPlain : List Hunk → Type 0
AllPlain hs = All (λ h. All IsPlain h.lines) hs

-- The end of the loop: what is put out, with what is still to be copied.
record Ends (out : List Text) (t : Progress) : Type 0 where
  whole : t.out ++ drop t.cursor t.src ≡ out
  saw : t.saw_hunk ≡ true

length-ended : (ls : List Text) → length (ended ls) ≡ length ls
length-ended [] = refl
length-ended (l ∷ ls) = ap suc (length-ended ls)

ended-append : (ls ms : List Text) → ended (ls ++ ms) ≡ ended ls ++ ended ms
ended-append ls ms = map-append (λ l. l ++ newline ∷ []) ls ms

-- One hunk: its header, and then its lines.
hunk_applies :
    (h : Hunk) (more src todo done out : List Text) (n kind : ℕ) (saw : Bool)
    → src ≡ done ++ (ended h.skipped ++ (ended (old_lines h) ++ todo))
    → n ≡ length done
    → Names h.header (suc (n + length h.skipped))
    → All IsPlain h.lines
    → apply_lines (h.header ∷ (map render_line h.lines ++ more)) (progress src out n saw kind)
      ≡ apply_lines more (
          progress src
            (out ++ ended h.skipped ++ ended (each_line new_line h.lines))
            (n + length h.skipped + length (old_lines h))
            true
            (kind_after 0 h.lines))
unfolding apply_lines
hunk_applies h more src todo done out n kind saw e at name plain =
    let len = length-ended h.skipped in
    let start =
      opens (no_more (map render_line h.lines ++ more)) h.header src (ended (old_lines h) ++ todo)
        saw kind (ended h.skipped) done out n (rw len name) e at in
    let content =
      content-Applies src todo more h.lines (done ++ ended h.skipped) (out ++ ended h.skipped)
        (n + length h.skipped) 0
        (e ∙ sym (append_assoc done (ended h.skipped) (ended (old_lines h) ++ todo)))
        (omega (arith, at, length-append done (ended h.skipped), len)) plain in
    rw (start, len) content

-- How the lines of the file are placed around a hunk.
split_before :
    (h : Hunk) (hs : List Hunk) (post done : List Text)
    → done ++ ended (file_before (h ∷ hs) post)
      ≡ done ++ (ended h.skipped ++ (ended (old_lines h) ++ ended (file_before hs post)))
split_before h hs post done =
    ap (λ x. done ++ x)
      (ended-append h.skipped (old_lines h ++ file_before hs post)
        ∙ ap (λ x. ended h.skipped ++ x) (ended-append (old_lines h) (file_before hs post)))

join_three : (a b c d : List Text) → a ++ (b ++ (c ++ d)) ≡ a ++ b ++ c ++ d
join_three a b c d = sym (append_assoc a b (c ++ d)) ∙ sym (append_assoc (a ++ b) c d)

-- A hunk, once it is known what becomes of the hunks behind it.
hunk_then :
    (h : Hunk) (hs : List Hunk) (post src done out : List Text) (n kind : ℕ) (saw : Bool)
    → src ≡ done ++ ended (file_before (h ∷ hs) post)
    → n ≡ length done
    → Numbered n (h ∷ hs)
    → AllPlain (h ∷ hs)
    → ((t : Progress) × (apply_lines (patch_lines hs ++ [] ∷ []) (
            progress src
              (out ++ ended h.skipped ++ ended (each_line new_line h.lines))
              (n + length h.skipped + length (old_lines h))
              true
              (kind_after 0 h.lines))
          ≡ ok t)
        × Ends
            (out
              ++ ended h.skipped
              ++ ended (each_line new_line h.lines)
              ++ ended (file_after hs post))
            t)
    → (t : Progress) × (apply_lines (patch_lines (h ∷ hs) ++ [] ∷ []) (progress src out n saw kind)
        ≡ ok t)
      × Ends (out ++ ended (file_after (h ∷ hs) post)) t
hunk_then h hs post src done out n kind saw e at (name, num) (p, plain) (t, run, ends) =
    let news = each_line new_line h.lines in
    let step =
      hunk_applies h (patch_lines hs ++ [] ∷ []) src (ended (file_before hs post)) done out n kind
        saw (e ∙ split_before h hs post done) at name p in
    let place : out ++ ended (file_after (h ∷ hs) post)
        ≡ out ++ ended h.skipped ++ ended news ++ ended (file_after hs post) =
      ap (λ x. out ++ x)
        (ended-append h.skipped (news ++ file_after hs post)
          ∙ ap (λ x. ended h.skipped ++ x) (ended-append news (file_after hs post)))
      ∙ join_three out (ended h.skipped) (ended news) (ended (file_after hs post)) in
    (
      t,
      ap (λ x. apply_lines (h.header ∷ x) (progress src out n saw kind))
            (append_assoc (map render_line h.lines) (patch_lines hs) ([] ∷ []))
          ∙ step
          ∙ run,
      record { whole = ends.whole ∙ sym place; saw = ends.saw },
    )

-- The place behind a hunk.
behind_hunk :
    (h : Hunk) (hs : List Hunk) (post src done : List Text) (n : ℕ)
    → src ≡ done ++ ended (file_before (h ∷ hs) post)
    → n ≡ length done
    → let behind = done ++ ended h.skipped ++ ended (old_lines h) in
      (src ≡ behind ++ ended (file_before hs post))
      × (n + length h.skipped + length (old_lines h) ≡ length behind)
behind_hunk h hs post src done n e at = (
  e
      ∙ split_before h hs post done
      ∙ join_three done (ended h.skipped) (ended (old_lines h)) (ended (file_before hs post)),
  omega (
    arith,
    at,
    length-append (done ++ ended h.skipped) (ended (old_lines h)),
    length-append done (ended h.skipped),
    length-ended h.skipped,
    length-ended (old_lines h),
  ),
)

hunks_apply :
    (hs : List Hunk) (post src done out : List Text) (n kind : ℕ)
    → src ≡ done ++ ended (file_before hs post)
    → n ≡ length done
    → Numbered n hs
    → AllPlain hs
    → (t : Progress) × (apply_lines (patch_lines hs ++ [] ∷ []) (progress src out n true kind)
        ≡ ok t)
      × Ends (out ++ ended (file_after hs post)) t
unfolding apply_lines apply_line other_line blank_line has_prefix
hunks_apply [] post src done out n kind e at num plain = (
  progress src out n true kind,
  refl,
  record { whole = ap (λ x. out ++ x) (rw (e, at) (drop_append done (ended post))); saw = refl },
)
hunks_apply (h ∷ hs) post src done out n kind e at (name, num) (p, plain) =
    let (e', at') = behind_hunk h hs post src done n e at in
    hunk_then h hs post src done out n kind true e at (name, num) (p, plain)
      (hunks_apply hs post src (done ++ ended h.skipped ++ ended (old_lines h))
        (out ++ ended h.skipped ++ ended (each_line new_line h.lines))
        (n + length h.skipped + length (old_lines h)) (kind_after 0 h.lines) e' at' num plain)

abbrev pub IsOneLine : Text → Type 0
IsOneLine l = has_byte newline l ≡ false

split_on-line :
    (l s : Text) → IsOneLine l → split_on newline (l ++ newline ∷ s) ≡ l ∷ split_on newline s
unfolding split_on has_byte
split_on-line [] s h = refl
split_on-line (c ∷ l) s h =
    let other : nat_beq c newline ≡ false = ground arith in
    rw (other, split_on-line l s (rw other at h))

split_on-text_of :
    (ls : List Text) → All IsOneLine ls → split_on newline (text_of ls) ≡ ls ++ [] ∷ []
unfolding split_on
split_on-text_of [] h = refl
split_on-text_of (l ∷ ls) (h, hs) =
    rw (append_assoc l (newline ∷ []) (text_of ls), split_on-line l (text_of ls) h)
      (ap (◌∷◌ l) (split_on-text_of ls hs))

split_after_line :
    (l s : Text)
    → IsOneLine l
    → split_after_lines (l ++ newline ∷ s) ≡ (l ++ newline ∷ []) ∷ split_after_lines s
unfolding split_after_lines has_byte
split_after_line [] s h = refl
split_after_line (c ∷ l) s h =
    let other : nat_beq c newline ≡ false = ground arith in
    rw (other, split_after_line l s (rw other at h))

split_after_lines-text_of :
    (ls : List Text) → All IsOneLine ls → split_after_lines (text_of ls) ≡ ended ls
unfolding split_after_lines
split_after_lines-text_of [] h = refl
split_after_lines-text_of (l ∷ ls) (h, hs) =
    rw (append_assoc l (newline ∷ []) (text_of ls), split_after_line l (text_of ls) h)
      (ap (◌∷◌ (l ++ newline ∷ [])) (split_after_lines-text_of ls hs))

-- A patch that is written from hunks, with each header naming the first line of its hunk, turns the
-- file before into the file after, for any number of hunks and any lines between them, where each
-- line of the patch and of the file before is one line with a newline at its end, no line that is
-- deleted begins with two dashes and a blank, and none that is added with two plus signs and a blank.
pub apply_unified-text_of :
    (h : Hunk) (hs : List Hunk) (post : List Text)
    → Numbered 0 (h ∷ hs)
    → AllPlain (h ∷ hs)
    → All IsOneLine (patch_lines (h ∷ hs))
    → All IsOneLine (file_before (h ∷ hs) post)
    → apply_unified (text_of (patch_lines (h ∷ hs))) (text_of (file_before (h ∷ hs) post))
      ≡ ok (text_of (file_after (h ∷ hs) post))
unfolding apply_unified close_patch
apply_unified-text_of h hs post num plain lines file =
    let src = ended (file_before (h ∷ hs) post) in
    let (e, at) = behind_hunk h hs post src [] 0 refl refl in
    let (t, run, ends) = hunk_then h hs post src [] [] 0 0 false refl refl num plain (
      hunks_apply hs post src ([] ++ ended h.skipped ++ ended (old_lines h))
        ([] ++ ended h.skipped ++ ended (each_line new_line h.lines))
        (0 + length h.skipped + length (old_lines h)) (kind_after 0 h.lines) e at num.1 plain.1) in
    rw (
      split_on-text_of (patch_lines (h ∷ hs)) lines,
      split_after_lines-text_of (file_before (h ∷ hs) post) file,
      run,
      ends.saw,
      ends.whole,
    )
