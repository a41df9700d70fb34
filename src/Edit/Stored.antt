-- ===== src/Edit/Stored.antt =====
-- companion/internal/mcpserver/preserve.go: a file that is read and written back keeps its bytes.
use fylane.Common.{
  ◌≡◌, refl, ap, ◌∙◌, subst, ==→eq, inl, inr, true, false, ◌&&◌, not, Option, none, some, List, [],
  ◌∷◌, map, if◌then◌else◌, if_cases, ◌==◌, nat_eq, Bool-cases,
}
use fylane.Common.Text.{Text, text_eq, text_beq, has_prefix, has_byte, contains}
use fylane.Common.Utf8.{valid_utf8}
use fylane.Edit.Encoding.{
  Coders, detect_decode, accept_utf16, accept_gbk, rune_error, bom_le, bom_be, utf16le, utf16be,
  gbk,
}
use fylane.Edit.Splice.{EditOp}
use fylane.Edit.Endings.{
  to_lf, to_crlf, TextProfile, profile, read_as, decode_text_file, normalize_input, encode,
  encode_as, normalize_edit, edit_file, edit_decoded,
}
use fylane.Edit.Returns.{double_return, with_endings-profile, to_lf-put_returns}

-- The coders give back the bytes of this file.
pub record IsCoded (c : Coders) (raw : Text) : Type 0 where
  pub le :
      (t : Text)
      → has_prefix raw bom_le ≡ true
      → c.decode_utf16 raw ≡ some t
      → c.encode_utf16le t ≡ some raw
  pub be :
      (t : Text)
      → has_prefix raw bom_be ≡ true
      → c.decode_utf16 raw ≡ some t
      → c.encode_utf16be t ≡ some raw
  pub gbk : (t : Text) → c.decode_gbk raw ≡ some t → c.encode_gbk t ≡ some raw

-- What was decoded can be encoded, and gives the bytes.
IsBack : Coders → Text → Option (Text × Text) → Type 0
IsBack c raw none = Unit
IsBack c raw (some (t, enc)) = encode_as c enc t ≡ some raw

accept_utf16-IsBack :
    (c : Coders) (raw name : Text) (o : Option Text)
    → ((t : Text) → o ≡ some t → encode_as c name t ≡ some raw)
    → IsBack c raw (accept_utf16 name o)
unfolding accept_utf16 IsBack
accept_utf16-IsBack c raw name none h = tt
accept_utf16-IsBack c raw name (some t) h =
    if_cases (IsBack c raw) (valid_utf8 t) (some (t, name)) none (λ v. h t refl) (λ v. tt)

accept_gbk-IsBack :
    (c : Coders) (raw : Text) (o : Option Text)
    → ((t : Text) → o ≡ some t → encode_as c gbk t ≡ some raw)
    → IsBack c raw (accept_gbk o)
unfolding accept_gbk IsBack
accept_gbk-IsBack c raw none h = tt
accept_gbk-IsBack c raw (some t) h =
    if_cases (IsBack c raw) (valid_utf8 t && not (contains t rune_error)) (some (t, gbk)) none
      (λ v. h t refl) (λ v. tt)

detect_decode-IsBack :
    (c : Coders) (raw : Text) → IsCoded c raw → IsBack c raw (detect_decode c raw)
unfolding detect_decode IsBack encode_as text_beq
detect_decode-IsBack c raw k = elim (Bool-cases (raw == [])) [
  | inl e ↦ rw (==→eq raw [] e) refl
  | inr e ↦ elim (Bool-cases (has_prefix raw bom_le)) [
    | inl l ↦ rw (e, l) (accept_utf16-IsBack c raw utf16le (c.decode_utf16 raw) (λ t. k.le t l))
    | inr l ↦ elim (Bool-cases (has_prefix raw bom_be)) [
      | inl b ↦
          rw (e, l, b) (accept_utf16-IsBack c raw utf16be (c.decode_utf16 raw) (λ t. k.be t b))
      | inr b ↦ elim (Bool-cases (has_byte 0 raw)) [
        | inl n ↦ rw (e, l, b, n) tt
        | inr n ↦ elim (Bool-cases (valid_utf8 raw)) [
          | inl v ↦ rw (e, l, b, n, v) refl
          | inr v ↦ rw (e, l, b, n, v) (accept_gbk-IsBack c raw (c.decode_gbk raw) k.gbk)
        ]
      ]
    ]
  ]
]

-- A text file whose text has no two returns before a newline is written back byte for byte, if
-- the coders give back the bytes that they decoded.
pub decode_text_file-encode :
    (c : Coders) (raw text enc : Text)
    → IsCoded c raw
    → detect_decode c raw ≡ some (text, enc)
    → contains text double_return ≡ false
    → (decoded : Text) × (p : TextProfile) × (decode_text_file c raw ≡ some (decoded, p))
      × (encode c p decoded ≡ some raw)
unfolding decode_text_file read_as encode profile IsBack
decode_text_file-encode c raw text enc k d h =
    let p = profile text enc in
    let back : encode_as c enc text ≡ some raw =
      subst (IsBack c raw) d (detect_decode-IsBack c raw k) in
    (
      (if p.crlf then to_lf text else text),
      p,
      ap read_as d,
      ap (encode_as c enc) (with_endings-profile text enc h) ∙ back,
    )

-- An edit as a caller with the other line endings writes it.
abbrev pub with_crlf : EditOp → EditOp
with_crlf e = record e { match_text = to_crlf e.match_text; content = to_crlf e.content }

normalize-with_crlf :
    (p : TextProfile) (edits : List EditOp)
    → p.uniform ≡ true
    → map (normalize_edit p) (map with_crlf edits) ≡ map (normalize_edit p) edits
unfolding normalize_edit normalize_input to_crlf
normalize-with_crlf p [] u = refl
normalize-with_crlf p (e ∷ edits) u =
    let m = to_lf-put_returns (to_lf e.match_text) in
    let k = to_lf-put_returns (to_lf e.content) in
    rw (u, m, k)
      (ap (◌∷◌ (record e { match_text = to_lf e.match_text; content = to_lf e.content }))
        (normalize-with_crlf p edits u))

-- In a file with one kind of line ending, edits whose texts have the one ending give the same
-- outcome as the same edits with the other.
pub edit_file-with_crlf :
    (c : Coders) (raw text : Text) (p : TextProfile) (edits : List EditOp)
    → decode_text_file c raw ≡ some (text, p)
    → p.uniform ≡ true
    → edit_file c raw (map with_crlf edits) ≡ edit_file c raw edits
unfolding edit_file edit_decoded
edit_file-with_crlf c raw text p edits d u = rw (d, normalize-with_crlf p edits u) refl
