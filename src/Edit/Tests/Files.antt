-- ===== src/Edit/Tests/Files.antt =====
-- The theorems about stored text at concrete files, and runs of the code.
use fylane.Common.{◌≡◌, refl, sym, true, false, [], ◌∷◌, ◌++◌, some, map, drop}
use fylane.Common.Text.{Text, codes, text_beq, has_prefix, contains}
use fylane.Common.Utf8.{valid_utf8}
use fylane.Edit.Splice.{EditOp}
use fylane.Edit.Encoding.{Coders, detect_decode, bom_le, bom_be, utf8}
use fylane.Edit.Endings.{TextProfile, decode_text_file, encode, edit_file, written}
use fylane.Edit.Returns.{double_return}
use fylane.Edit.Stored.{IsCoded, decode_text_file-encode, with_crlf, edit_file-with_crlf}

-- Coders that keep the bytes behind the mark of a UTF-16 text.
abbrev coders : Coders
coders = record {
  decode_utf16 = λ raw. some (drop 2 raw);
  decode_gbk = λ raw. some raw;
  encode_utf16le = λ t. some (bom_le ++ t);
  encode_utf16be = λ t. some (bom_be ++ t);
  encode_gbk = λ t. some t;
}

abbrev two_lines : Text
two_lines = codes "a\r\nb\r\n"

abbrev marked : Text
marked = bom_le ++ codes "a\r\n"

marked-IsCoded : IsCoded coders marked
unfolding has_prefix
marked-IsCoded = record { le = λ t h e. cc; be = λ t h e. cc; gbk = λ t e. sym e }

marked_detected : detect_decode coders marked ≡ some (codes "a\r\n", codes "utf-16le")
unfolding detect_decode text_beq
marked_detected = refl

no_double : contains (codes "a\r\n") double_return ≡ false
unfolding contains
no_double = refl

decode_text_file-encode_example :
    (decoded : Text) × (p : TextProfile) × (decode_text_file coders marked ≡ some (decoded, p))
    × (encode coders p decoded ≡ some marked)
decode_text_file-encode_example =
    decode_text_file-encode coders marked (codes "a\r\n") (codes "utf-16le") marked-IsCoded
      marked_detected no_double

abbrev inserts_x : EditOp
inserts_x = record {
  edit_type = codes "insert_after";
  match_text = codes "a\n";
  content = codes "x\n";
  start_line = 0;
  end_line = 0;
}

two_lines_decoded :
    decode_text_file coders two_lines
    ≡ some (codes "a\nb\n", record { encoding = utf8; uniform = true; crlf = true })
unfolding decode_text_file text_beq
two_lines_decoded = refl

edit_file-with_crlf_example :
    edit_file coders two_lines (map with_crlf (inserts_x ∷ []))
    ≡ edit_file coders two_lines (inserts_x ∷ [])
edit_file-with_crlf_example =
    edit_file-with_crlf coders two_lines (codes "a\nb\n")
      (record { encoding = utf8; uniform = true; crlf = true }) (inserts_x ∷ []) two_lines_decoded
      refl

line_added : edit_file coders two_lines (inserts_x ∷ []) ≡ written (codes "a\r\nx\r\nb\r\n")
unfolding edit_file text_beq
line_added = refl

-- Two returns before a newline become one, though the edit stands elsewhere.
return_lost :
    edit_file coders (codes "a\r\nb\r\r\n") (inserts_x ∷ []) ≡ written (codes "a\r\nx\r\nb\r\n")
unfolding edit_file text_beq
return_lost = refl

overlong : valid_utf8 (192 ∷ 128 ∷ []) ≡ false
unfolding valid_utf8
overlong = refl

euro : valid_utf8 (226 ∷ 130 ∷ 172 ∷ []) ≡ true
unfolding valid_utf8
euro = refl
