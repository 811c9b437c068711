-- ===== src/Firmware/HealthJson/Reader.antt =====
-- firmware/src/network.rs: a reader of JSON, and what it makes of the text that `push_json` adds.
use servatory.Prelude.{
  ℕ, ◌≡◌, refl, sym, ap, ◌∙◌, Bool, not, ◌&&◌, ◌||◌, List, [], ◌∷◌, ◌++◌, append-nil, append_assoc,
  arith, ltb, ◌==◌, if◌then◌else◌, All,
}
use servatory.Prelude.Text.{Text, codes}
use servatory.Prelude.Decimal.{IsDigit}
use servatory.Firmware.HealthJson.{is_control, push_json_char, push_json}

-- A reader of JSON: the strings found so far; in a string, the part of it that was read; and whether
-- a backslash was just read. It fails on a control character in a string and on other escapes.
pub data Reader : Type 0 where
  between : (found : List Text) → Reader
  inside : (found : List Text) (read : Text) → Reader
  escape : (found : List Text) (read : Text) → Reader
  failed : Reader

abbrev pub unescape : List Text → Text → ℕ → Reader
unescape found read c =
    if (c == b'"') || (c == b'\\')
    then inside found (read ++ c ∷ [])
    else if c == b'n'
    then inside found (read ++ 10 ∷ [])
    else if c == b'r'
    then inside found (read ++ 13 ∷ [])
    else if c == b't'
    then inside found (read ++ 9 ∷ [])
    else failed

abbrev pub read_char : Reader → ℕ → Reader
read_char (between found) c = if c == b'"' then inside found [] else between found
read_char (inside found read) c =
    if c == b'"'
    then between (found ++ read ∷ [])
    else if c == b'\\'
    then escape found read
    else if ltb c 0x20
    then failed
    else inside found (read ++ c ∷ [])
read_char (escape found read) c = unescape found read c
read_char failed c = failed

abbrev pub read_json : Reader → Text → Reader
read_json r [] = r
read_json r (c ∷ t) = read_json (read_char r c) t

pub read_json-append :
    (r : Reader) (s t : Text) → read_json r (s ++ t) ≡ read_json (read_json r s) t
read_json-append r [] t = refl
read_json-append r (c ∷ s) t = read_json-append (read_char r c) s t

-- A text whose strings, read from its beginning, leave the reader at `r`.
pub record Reads (s : Text) (r : Reader) : Type 0 where
  pub reads : read_json (between []) s ≡ r

pub Reads-becomes : (s : Text) (r r' : Reader) → Reads s r → r ≡ r' → Reads s r'
Reads-becomes s r r' h e = record { reads = h.reads ∙ e }

pub Reads-append : (s t : Text) (r : Reader) → Reads s r → Reads (s ++ t) (read_json r t)
Reads-append s t r h = record {
  reads = read_json-append (between []) s t ∙ ap (λ r. read_json r t) h.reads;
}

-- What `push_json` keeps of a value: all but the control characters that have no escape.
abbrev pub is_dropped : ℕ → Bool
is_dropped c = is_control c && not ((c == 10) || (c == 13) || (c == 9))

abbrev pub char_text : ℕ → Text
char_text c = if is_dropped c then [] else c ∷ []

abbrev pub kept : Text → Text
kept [] = []
kept (c ∷ t) = char_text c ++ kept t

-- The text that `push_json` adds for a character.
abbrev pub json_char : ℕ → Text
json_char c =
    if (c == b'"') || (c == b'\\')
    then b'\\' ∷ c ∷ []
    else if c == 10
    then codes "\\n"
    else if c == 13
    then codes "\\r"
    else if c == 9
    then codes "\\t"
    else if is_control c
    then []
    else c ∷ []

pub push_json_char-json_char : (s : Text) (c : ℕ) → push_json_char s c ≡ s ++ json_char c
unfolding push_json_char
push_json_char-json_char s c = ground (arith, append-nil s)

pub json_char-read :
    (c : ℕ) (found : List Text) (read : Text)
    → read_json (inside found read) (json_char c) ≡ inside found (read ++ char_text c)
json_char-read c found read = ground (arith, append-nil read)

pub push_json_char-Reads :
    (s : Text) (c : ℕ) (found : List Text) (read : Text)
    → Reads s (inside found read)
    → Reads (push_json_char s c) (inside found (read ++ char_text c))
push_json_char-Reads s c found read h =
    rw (push_json_char-json_char s c)
      (Reads-becomes _ _ _ (Reads-append s (json_char c) _ h) (json_char-read c found read))

pub push_json-Reads :
    (v s : Text) (found : List Text) (read : Text)
    → Reads s (inside found read)
    → Reads (push_json s v) (inside found (read ++ kept v))
unfolding push_json
push_json-Reads [] s found read h =
    Reads-becomes s _ _ h (sym (ap (inside found) (append-nil read)))
push_json-Reads (c ∷ v) s found read h =
    Reads-becomes _ _ _
      (push_json-Reads v (push_json_char s c) found _ (push_json_char-Reads s c found read h))
      (ap (inside found) (append_assoc read (char_text c) (kept v)))

pub digit-read :
    (c : ℕ) (found : List Text) → IsDigit c → read_char (between found) c ≡ between found
digit-read c found (h, k) = ground arith

-- Digits leave the reader between strings.
pub digits-read :
    (t : Text) (found : List Text) → All IsDigit t → read_json (between found) t ≡ between found
digits-read [] found h = refl
digits-read (c ∷ t) found h = rw (digit-read c found h.0) (digits-read t found h.1)
