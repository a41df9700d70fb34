-- ===== src/Edit/Encoding.antt =====
-- companion/internal/textenc/textenc.go: what a file is encoded in.
use fylane.Common.{◌&&◌, not, Option, none, some, [], ◌∷◌, if◌then◌else◌, ◌==◌, nat_eq}
use fylane.Common.Text.{Text, codes, text_eq, has_byte, has_prefix, contains}
use fylane.Common.Utf8.{valid_utf8}

-- The coders of golang.org/x/text; none is an error.
pub record Coders : Type 0 where
  pub decode_utf16 : Text → Option Text
  pub decode_gbk : Text → Option Text
  pub encode_utf16le : Text → Option Text
  pub encode_utf16be : Text → Option Text
  pub encode_gbk : Text → Option Text

-- utf8.RuneError in UTF-8.
abbrev pub rune_error : Text
rune_error = 239 ∷ 191 ∷ 189 ∷ []

abbrev pub bom_le : Text
bom_le = 255 ∷ 254 ∷ []

abbrev pub bom_be : Text
bom_be = 254 ∷ 255 ∷ []

abbrev pub utf8 : Text
utf8 = codes "utf-8"

abbrev pub utf16le : Text
utf16le = codes "utf-16le"

abbrev pub utf16be : Text
utf16be = codes "utf-16be"

abbrev pub gbk : Text
gbk = codes "gbk"

unfoldable pub accept_utf16 : Text → Option Text → Option (Text × Text)
unfolding valid_utf8
accept_utf16 name none = none
accept_utf16 name (some decoded) = if valid_utf8 decoded then some (decoded, name) else none

unfoldable pub accept_gbk : Option Text → Option (Text × Text)
unfolding valid_utf8 contains
accept_gbk none = none
accept_gbk (some decoded) =
    if valid_utf8 decoded && not (contains decoded rune_error) then some (decoded, gbk) else none

-- The text and the name of its encoding, or none for binary data.
unfoldable pub detect_decode : Coders → Text → Option (Text × Text)
unfolding accept_utf16 accept_gbk valid_utf8 has_prefix has_byte
detect_decode c raw =
    if raw == []
    then some ([], utf8)
    else if has_prefix raw bom_le
    then accept_utf16 utf16le (c.decode_utf16 raw)
    else if has_prefix raw bom_be
    then accept_utf16 utf16be (c.decode_utf16 raw)
    else if has_byte 0 raw
    then none
    else if valid_utf8 raw
    then some (raw, utf8)
    else accept_gbk (c.decode_gbk raw)
