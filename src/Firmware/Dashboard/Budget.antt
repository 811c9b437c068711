-- ===== src/Firmware/Dashboard/Budget.antt =====
-- firmware/src/network.rs: what `DashboardBuffer` makes of the text that a page is built from.
use servatory.Prelude.{
  ℕ, ◌+◌, ◌≤◌, ◌<◌, min, ◌≡◌, refl, sym, ap, subst, ◌⊎◌, inl, inr, Bool, true, false, List, [], ◌∷◌,
  ◌++◌, append-nil, append_assoc, arith, leb, ◌==◌, if◌then◌else◌, leb→le, Bool-cases,
}
use servatory.Prelude.Text.{Text, codes, len, len-append}
use servatory.Prelude.Decimal.{decimal}
use servatory.Firmware.Dashboard.{
  DashboardBuffer, new_buffer, push_str, push_html, push_html_char, write_pieces, render_metric,
  finish, too_long, dashboard_body_capacity,
}

-- The text of a character in a page.
abbrev pub escaped_char : ℕ → Text
escaped_char c =
    if c == b'&'
    then codes "&amp;"
    else if c == b'<'
    then codes "&lt;"
    else if c == b'>'
    then codes "&gt;"
    else if c == b'"'
    then codes "&quot;"
    else c ∷ []

abbrev pub escaped : Text → Text
escaped [] = []
escaped (c ∷ value) = escaped_char c ++ escaped value

abbrev pub joined : List Text → Text
joined [] = []
joined (p ∷ ps) = p ++ joined ps

abbrev pub metric_text : Text → ℕ → Text → Text
metric_text label percent detail =
    codes "<div class=metric><div class=metric-row><strong>"
    ++ (escaped label
        ++ (joined (codes "</strong><span>" ∷ decimal percent ∷ codes "% · " ∷ [])
            ++ (escaped detail
                ++ joined (
                    codes "</span></div><div class=bar><i style='width:"
                    ∷ decimal (min percent 100)
                    ∷ codes "%'></i></div></div>"
                    ∷ []))))

-- What is done to the buffer, one after the other.
pub data Op : Type 0 where
  text : Text → Op
  html : Text → Op
  pieces : List Text → Op
  metric : (label : Text) (percent : ℕ) (detail : Text) → Op

abbrev pub run_op : Op → DashboardBuffer → DashboardBuffer
run_op (text t) b = push_str t b
run_op (html t) b = push_html t b
run_op (pieces ps) b = write_pieces ps b
run_op (metric label percent detail) b = render_metric label percent detail b

abbrev pub run_ops : List Op → DashboardBuffer → DashboardBuffer
run_ops [] b = b
run_ops (o ∷ os) b = run_ops os (run_op o b)

abbrev pub op_text : Op → Text
op_text (text t) = t
op_text (html t) = escaped t
op_text (pieces ps) = joined ps
op_text (metric label percent detail) = metric_text label percent detail

abbrev pub ops_text : List Op → Text
ops_text [] = []
ops_text (o ∷ os) = op_text o ++ ops_text os

-- The buffer has this text, or the text is too long and the buffer knows it.
abbrev pub Holds : Text → DashboardBuffer → Type 0
Holds t b =
    ((b.overflowed ≡ false) × (b.inner ≡ t) × (len t ≤ dashboard_body_capacity))
    ⊎ ((b.overflowed ≡ true) × (dashboard_body_capacity < len t))

pub push_str-Holds : (v t : Text) (b : DashboardBuffer) → Holds t b → Holds (t ++ v) (push_str v b)
unfolding push_str
push_str-Holds v t b (inl (o, e, l)) =
    elim (Bool-cases (leb (len b.inner + len v) dashboard_body_capacity)) [
      | inl h ↦
          rw h (inl (o, ap (λ s. s ++ v) e, omega (arith, leb→le _ _ h, ap len e, len-append t v)))
      | inr h ↦ rw h (inr (refl, ground (arith, ap len e, len-append t v)))
    ]
push_str-Holds v t b (inr (o, l)) =
    elim (Bool-cases (leb (len b.inner + len v) dashboard_body_capacity)) [
      | inl h ↦ rw h (inr (o, omega (arith, l, len-append t v)))
      | inr h ↦ rw h (inr (refl, omega (arith, l, len-append t v)))
    ]

stopped : (r s : Text) (b : DashboardBuffer) → Holds s b → b.overflowed ≡ true → Holds (s ++ r) b
stopped r s b (inl (o, e, l)) h = ground arith
stopped r s b (inr (o, l)) h = inr (o, omega (arith, l, len-append s r))

either-Holds :
    (c : Bool) (s : Text) (b d : DashboardBuffer)
    → (c ≡ true → Holds s b)
    → (c ≡ false → Holds s d)
    → Holds s (if c then b else d)
either-Holds true s b d h k = h refl
either-Holds false s b d h k = k refl

if-Holds :
    (c : Bool) (t x y : Text) (b d : DashboardBuffer)
    → Holds (t ++ x) b
    → Holds (t ++ y) d
    → Holds (t ++ (if c then x else y)) (if c then b else d)
if-Holds true t x y b d h k = h
if-Holds false t x y b d h k = k

pub write_pieces-Holds :
    (ps : List Text) (t : Text) (b : DashboardBuffer)
    → Holds t b
    → Holds (t ++ joined ps) (write_pieces ps b)
unfolding write_pieces
write_pieces-Holds [] t b h = rw (append-nil t) h
write_pieces-Holds (p ∷ ps) t b h =
    let pushed = push_str-Holds p t b h in
    rw (sym (append_assoc t p (joined ps))) (
      either-Holds (push_str p b).overflowed _ _ _ (stopped (joined ps) (t ++ p) _ pushed)
        (λ o. write_pieces-Holds ps (t ++ p) _ pushed))

push_html_char-Holds :
    (c : ℕ) (t : Text) (b : DashboardBuffer)
    → Holds t b
    → Holds (t ++ escaped_char c) (push_html_char c b)
unfolding push_html_char
push_html_char-Holds c t b h =
    let pushed : (v : Text) → Holds (t ++ v) (push_str v b) = λ v. push_str-Holds v t b h in
    if-Holds (c == b'&') t _ _ _ _ (pushed _) (
      if-Holds (c == b'<') t _ _ _ _ (pushed _) (
        if-Holds (c == b'>') t _ _ _ _ (pushed _)
          (if-Holds (c == b'"') t _ _ _ _ (pushed _) (pushed (c ∷ [])))))

pub push_html-Holds :
    (v t : Text) (b : DashboardBuffer) → Holds t b → Holds (t ++ escaped v) (push_html v b)
unfolding push_html
push_html-Holds [] t b h = rw (append-nil t) h
push_html-Holds (c ∷ v) t b h =
    rw (sym (append_assoc t (escaped_char c) (escaped v)))
      (push_html-Holds v _ _ (push_html_char-Holds c t b h))

reassociated :
    (t a b c d e : Text) → ((((t ++ a) ++ b) ++ c) ++ d) ++ e ≡ t ++ (a ++ (b ++ (c ++ (d ++ e))))
reassociated t a b c d e = simp (append_assoc)

pub render_metric-Holds :
    (label : Text) (percent : ℕ) (detail t : Text) (b : DashboardBuffer)
    → Holds t b
    → Holds (t ++ metric_text label percent detail) (render_metric label percent detail b)
unfolding render_metric
render_metric-Holds label percent detail t b h =
    let opened = push_html-Holds label _ _ (push_str-Holds _ t b h) in
    let shown = push_html-Holds detail _ _ (write_pieces-Holds _ _ _ opened) in
    subst (λ s. Holds s (render_metric label percent detail b)) (reassociated t _ _ _ _ _)
      (write_pieces-Holds _ _ _ shown)

run_op-Holds :
    (o : Op) (t : Text) (b : DashboardBuffer) → Holds t b → Holds (t ++ op_text o) (run_op o b)
run_op-Holds (text v) t b h = push_str-Holds v t b h
run_op-Holds (html v) t b h = push_html-Holds v t b h
run_op-Holds (pieces ps) t b h = write_pieces-Holds ps t b h
run_op-Holds (metric label percent detail) t b h = render_metric-Holds label percent detail t b h

run_ops-Holds :
    (os : List Op) (t : Text) (b : DashboardBuffer)
    → Holds t b
    → Holds (t ++ ops_text os) (run_ops os b)
run_ops-Holds [] t b h = rw (append-nil t) h
run_ops-Holds (o ∷ os) t b h =
    rw (sym (append_assoc t (op_text o) (ops_text os)))
      (run_ops-Holds os _ _ (run_op-Holds o t b h))

fits_lem :
    (t : Text) (document : Bool)
    → len t ≤ dashboard_body_capacity
    → (if leb (len t) dashboard_body_capacity then t else too_long document) ≡ t
fits_lem t document l = ground arith

exceeds_lem :
    (t : Text) (document : Bool)
    → dashboard_body_capacity < len t
    → (if leb (len t) dashboard_body_capacity then t else too_long document) ≡ too_long document
exceeds_lem t document l = ground arith

finish-Holds :
    (document : Bool) (t : Text) (b : DashboardBuffer)
    → Holds t b
    → finish document b ≡ (if leb (len t) dashboard_body_capacity then t else too_long document)
unfolding finish
finish-Holds document t b (inl (o, e, l)) = rw (o, e) (sym (fits_lem t document l))
finish-Holds document t b (inr (o, l)) = rw o (sym (exceeds_lem t document l))

-- Whatever is pushed into a new buffer, in whatever order: the page is the text of all of it if that
-- has at most 16 KiB, and the page that says that it is too long otherwise; it is never cut off.
pub finish-run_ops :
    (document : Bool) (os : List Op)
    → finish document (run_ops os new_buffer)
      ≡ (if leb (len (ops_text os)) dashboard_body_capacity then ops_text os else too_long document)
finish-run_ops document os =
    finish-Holds document _ _ (run_ops-Holds os [] new_buffer (inl (refl, refl, omega arith)))
