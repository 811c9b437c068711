-- ===== src/Firmware/Dashboard/Escape.antt =====
-- firmware/src/network.rs: what a reader of the page makes of the text that `push_html` puts there.
use servatory.Prelude.{
  ℕ, ◌+◌, ◌*◌, ◌≤◌, ◌<◌, ◌≡◌, refl, ap, ◌∙◌, ◌⊎◌, inl, inr, true, false, ◌||◌, [], ◌∷◌, ◌++◌,
  append-nil, append_assoc, arith, ◌==◌, if◌then◌else◌,
}
use servatory.Prelude.Text.{Text, codes, len, len_utf8, len-append, text_eq}
use servatory.Firmware.Dashboard.{dashboard_body_capacity, push_html}
use servatory.Firmware.Dashboard.Budget.{escaped, escaped_char, push_html-Holds}

-- A reader of HTML text: it has read some text, or is in an entity after some text, or has met a
-- character that would begin or end a tag or an attribute, or an entity that it does not know.
pub data HtmlReader : Type 0 where
  plain : (read : Text) → HtmlReader
  entity : (read name : Text) → HtmlReader
  markup : HtmlReader

abbrev pub named : (read name : Text) → HtmlReader
named read name =
    if text_eq name (codes "amp")
    then plain (read ++ b'&' ∷ [])
    else if text_eq name (codes "lt")
    then plain (read ++ b'<' ∷ [])
    else if text_eq name (codes "gt")
    then plain (read ++ b'>' ∷ [])
    else if text_eq name (codes "quot")
    then plain (read ++ b'"' ∷ [])
    else markup

abbrev pub read_char : HtmlReader → ℕ → HtmlReader
read_char (plain read) c =
    if c == b'&'
    then entity read []
    else if (c == b'<') || (c == b'>') || (c == b'"')
    then markup
    else plain (read ++ c ∷ [])
read_char (entity read name) c = if c == b';' then named read name else entity read (name ++ c ∷ [])
read_char markup c = markup

abbrev pub read_text : HtmlReader → Text → HtmlReader
read_text r [] = r
read_text r (c ∷ t) = read_text (read_char r c) t

read_text-append :
    (r : HtmlReader) (s t : Text) → read_text r (s ++ t) ≡ read_text (read_text r s) t
read_text-append r [] t = refl
read_text-append r (c ∷ s) t = read_text-append (read_char r c) s t

read-escaped_char :
    (c : ℕ) (read : Text) → read_text (plain read) (escaped_char c) ≡ plain (read ++ c ∷ [])
unfolding text_eq
read-escaped_char c read = ground arith

read-escaped : (v read : Text) → read_text (plain read) (escaped v) ≡ plain (read ++ v)
read-escaped [] read = simp (append-nil)
read-escaped (c ∷ v) read =
    read_text-append (plain read) (escaped_char c) (escaped v)
    ∙ rw (read-escaped_char c read) (read-escaped v _ ∙ ap plain (append_assoc read (c ∷ []) v))

len-escaped_char : (c : ℕ) → len (escaped_char c) ≤ 6 * len_utf8 c
len-escaped_char c = ground arith

len-escaped : (v : Text) → len (escaped v) ≤ 6 * len v
len-escaped [] = omega arith
len-escaped (c ∷ v) =
    omega (arith, len-append (escaped_char c) (escaped v), len-escaped_char c, len-escaped v)

-- What `push_html` does to a buffer that holds a text: the buffer overflows, which
-- it does only if the text and six times the value exceed its capacity, or a text is added that a
-- reader of HTML takes for the value itself, without meeting a tag, the end of an attribute in double
-- quotes or another entity.
pub push_html-reads :
    (value t : Text)
    → len t ≤ dashboard_body_capacity
    → let b = push_html value (record { inner = t; overflowed = false }) in
      ((b.overflowed ≡ true) × (dashboard_body_capacity < len t + 6 * len value))
      ⊎ ((s : Text) × (b.inner ≡ t ++ s) × (read_text (plain []) s ≡ plain value))
push_html-reads value t l =
    elim (push_html-Holds value t (record { inner = t; overflowed = false })
      (inl (refl, refl, l))) [
        | inl (o, e, k) ↦ inr (escaped value, e, read-escaped value [])
        | inr (o, k) ↦ inl (o, omega (arith, k, len-append t (escaped value), len-escaped value))
      ]
