-- ===== src/Firmware/PagesTests.antt =====
-- firmware/src/network.rs and firmware/src/framebuffer.rs: the dashboard's buffer, `health_json`
-- and the frame buffer at concrete inputs.
use servatory.Prelude.{
  ℕ, ◌<◌, ◌≡◌, refl, ◌⊎◌, true, false, some, List, [], ◌∷◌, ◌++◌, arith, length, replicate,
  length-replicate,
}
use servatory.Prelude.Text.{Text, codes}
use servatory.Prelude.Decimal.{decimal}
use servatory.Firmware.Network.{new_shared_state}
use servatory.Firmware.Notify.{active_incidents}
use servatory.Firmware.FrameBuffer.{pos, negsuc, Pixel, width, height, buffer_size, draw_iter}
use servatory.Firmware.FrameBuffer.Screen.{pixel_at, shown, draw_iter-shown}
use servatory.Firmware.Dashboard.{
  new_buffer, dashboard_body_capacity, push_str, push_html, push_html_char, finish,
}
use servatory.Firmware.Dashboard.Budget.{Op, text, metric, run_ops, finish-run_ops}
use servatory.Firmware.Dashboard.Escape.{plain, read_text, push_html-reads}
use servatory.Firmware.HealthJson.{health_json, push_json, push_json_char, push_incidents}
use servatory.Firmware.HealthJson.Reader.{between, read_json}
use servatory.Firmware.HealthJson.Strings.{health_json-strings}

abbrev cpu_ops : List Op
cpu_ops =
    text (codes "<main>") ∷ metric (codes "CPU & RAM") 7 (codes "<7>") ∷ text (codes "</main>") ∷ []

-- The page of one metric fits.
finish-run_ops_example :
    finish true (run_ops cpu_ops new_buffer)
    ≡ codes
        "<main><div class=metric><div class=metric-row><strong>CPU &amp; RAM</strong><span>7% · &lt;7&gt;</span></div><div class=bar><i style='width:7%'></i></div></div></main>"
unfolding decimal
finish-run_ops_example = finish-run_ops true cpu_ops

push_html-reads_example :
    let b = push_html (codes "a<b") (record { inner = codes "<p>"; overflowed = false }) in
    ((b.overflowed ≡ true) × (dashboard_body_capacity < 21))
    ⊎ ((s : Text) × (b.inner ≡ codes "<p>" ++ s) × (read_text (plain []) s ≡ plain (codes "a<b")))
push_html-reads_example = push_html-reads (codes "a<b") (codes "<p>") (omega arith)

-- It does not overflow there.
push_html_entity : (push_html (codes "a<b") new_buffer).inner ≡ codes "a&lt;b"
unfolding push_html push_html_char push_str
push_html_entity = refl

-- Without a snapshot the host is offline.
health_json-strings_example :
    read_json (between []) (health_json 5 6 new_shared_state)
    ≡ between (
        codes "stale"
        ∷ codes "incidents"
        ∷ codes "level"
        ∷ codes "critical"
        ∷ codes "message"
        ∷ codes "HOST CONNECTION LOST"
        ∷ [])
unfolding active_incidents
health_json-strings_example = health_json-strings 5 6 new_shared_state

offline_json :
    health_json 5 6 new_shared_state
    ≡ codes
        "{\"stale\":true,\"incidents\":[{\"level\":\"critical\",\"message\":\"HOST CONNECTION LOST\"}]}"
unfolding health_json active_incidents push_incidents push_json push_json_char
offline_json = refl

-- A quotation mark, a backslash, a line feed and a bell in a text.
escaped_json : push_json [] (b'"' ∷ b'\\' ∷ 10 ∷ 7 ∷ b'a' ∷ []) ≡ codes "\\\"\\\\\\na"
unfolding push_json push_json_char
escaped_json = refl

printed : decimal 1048576 ≡ codes "1048576"
unfolding decimal
printed = refl

-- A red pixel, one off the screen, and a green one in its place.
abbrev some_pixels : List Pixel
some_pixels =
    record { x = pos 1; y = pos 2; color = 0xf800 }
    ∷ record { x = negsuc 0; y = pos 2; color = 0x001f }
    ∷ record { x = pos 1; y = pos 2; color = 0x07e0 }
    ∷ []

draw_iter-shown_example :
    (bytes : List ℕ) × (draw_iter some_pixels (replicate buffer_size 0) ≡ some bytes)
    × (length bytes ≡ buffer_size)
    × ((a b : ℕ)
        → a < width
        → b < height
        → pixel_at bytes a b ≡ shown some_pixels a b (pixel_at (replicate buffer_size 0) a b))
draw_iter-shown_example =
    draw_iter-shown some_pixels (replicate buffer_size 0) (length-replicate {A = ℕ} buffer_size 0)

-- The last colour there.
green_pixel : shown some_pixels 1 2 (some 0, some 0) ≡ (some 0x07, some 0xe0)
green_pixel = refl
