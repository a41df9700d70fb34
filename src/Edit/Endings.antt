-- ===== src/Edit/Endings.antt =====
-- companion/internal/mcpserver/preserve.go: the form in which a file stores its text, and the edit
-- of a file in edit.go between reading it and writing it.
use fylane.Common.{
  ℕ, ◌+◌, Bool, false, ◌&&◌, ◌||◌, Option, none, some, List, [], ◌∷◌, map, if◌then◌else◌, ltb,
  nat_beq, ◌==◌, nat_eq,
}
use fylane.Common.Text.{Text, text_eq}
use fylane.Edit.Encoding.{Coders, detect_decode, utf8, utf16le, utf16be, gbk}
use fylane.Edit.Splice.{EditOp, EditError, ok, err, apply_edits, newline}
use fylane.Edit.Splice

abbrev pub return_byte : ℕ
return_byte = 13

abbrev pub starts_line : Text → Bool
starts_line [] = false
starts_line (c ∷ s) = nat_beq c newline

-- toLF: a return right before a newline goes.
unfoldable pub to_lf : Text → Text
to_lf [] = []
to_lf (c ∷ s) =
    let rest = to_lf s in if nat_beq c return_byte && starts_line s then rest else c ∷ rest

-- strings.ReplaceAll(s, "\n", "\r\n")
unfoldable pub put_returns : Text → Text
put_returns [] = []
put_returns (c ∷ s) =
    let rest = put_returns s in if nat_beq c newline then return_byte ∷ c ∷ rest else c ∷ rest

unfoldable pub to_crlf : Text → Text
unfolding to_lf put_returns
to_crlf s = put_returns (to_lf s)

-- strings.Count of "\r\n" and of "\n"
unfoldable pub count_crlf : Text → ℕ
count_crlf [] = 0
count_crlf (c ∷ s) = (if nat_beq c return_byte && starts_line s then 1 else 0) + count_crlf s

unfoldable pub count_lf : Text → ℕ
count_lf [] = 0
count_lf (c ∷ s) = (if nat_beq c newline then 1 else 0) + count_lf s

pub record TextProfile : Type 0 where
  pub encoding : Text
  pub uniform : Bool
  pub crlf : Bool

unfoldable pub profile : Text → Text → TextProfile
unfolding count_crlf count_lf
profile text enc =
    let crlf = count_crlf text in
    let nl = count_lf text in
    record { encoding = enc; uniform = crlf == 0 || crlf == nl; crlf = ltb 0 crlf && crlf == nl }

unfoldable pub read_as : Option (Text × Text) → Option (Text × TextProfile)
unfolding profile to_lf
read_as none = none
read_as (some (text, enc)) =
    let prof = profile text enc in some (if prof.crlf then to_lf text else text, prof)

unfoldable pub decode_text_file : Coders → Text → Option (Text × TextProfile)
unfolding detect_decode read_as
decode_text_file c raw = read_as (detect_decode c raw)

unfoldable pub normalize_input : TextProfile → Text → Text
unfolding to_lf
normalize_input p s = if p.uniform then to_lf s else s

unfoldable pub with_endings : TextProfile → Text → Text
unfolding to_lf to_crlf
with_endings p text =
    if p.uniform then if p.crlf then to_crlf (to_lf text) else to_lf text else text

-- The bytes for the file, or none where the encoding has no place for the text or is not known.
unfoldable pub encode_as : Coders → Text → Text → Option Text
encode_as c encoding stored =
    if encoding == [] || encoding == utf8
    then some stored
    else if encoding == utf16le
    then c.encode_utf16le stored
    else if encoding == utf16be
    then c.encode_utf16be stored
    else if encoding == gbk
    then c.encode_gbk stored
    else none

unfoldable pub encode : Coders → TextProfile → Text → Option Text
unfolding with_endings encode_as
encode c p text = encode_as c p.encoding (with_endings p text)

pub data Edited : Type 0 where
  not_text not_encodable : Edited
  does_not_apply : EditError → Edited
  written : Text → Edited

unfoldable pub normalize_edit : TextProfile → EditOp → EditOp
unfolding normalize_input
normalize_edit p e = record e {
  match_text = normalize_input p e.match_text;
  content = normalize_input p e.content;
}

abbrev encoded : Option Text → Edited
encoded none = not_encodable
encoded (some raw) = written raw

unfoldable pub write_back : Coders → TextProfile → Splice.Result Text → Edited
unfolding encode
write_back c p (err e) = does_not_apply e
write_back c p (ok text) = encoded (encode c p text)

unfoldable pub edit_decoded : Coders → Option (Text × TextProfile) → List EditOp → Edited
unfolding normalize_edit apply_edits write_back
edit_decoded c none edits = not_text
edit_decoded c (some (text, p)) edits =
    write_back c p (apply_edits text (map (normalize_edit p) edits))

-- The new bytes of a file under edits.
unfoldable pub edit_file : Coders → Text → List EditOp → Edited
unfolding decode_text_file edit_decoded
edit_file c raw edits = edit_decoded c (decode_text_file c raw) edits
