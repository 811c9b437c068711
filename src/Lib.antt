-- ===== src/Lib.antt =====
-- Servatory shows the state of a home server on a USB stick with a display and one button. The
-- host daemon collects the state, evaluates the health rules of its configuration and sends
-- both to the stick over a USB serial line; the stick shows them, serves them over HTTP, sends
-- notifications, and asks the host to shut down when its button is held.
--
-- The parts, and the file that models each:
--
-- - Protocol: protocol/src/lib.rs, what the two sides say to each other. Protocol/Health,
--   Display, Network, Snapshot and Message hold its types with the constructors that check or
--   clamp. Protocol/Frame is `encode` and `decode`; Protocol/Decoder is `FrameDecoder`, its
--   state the record `FrameDecoder` with the buffer, `len` and `discarding`, and `push` one
--   byte. Protocol/Decoder/Spec says independently what a decoder must deliver: the pieces
--   between the zeros of the stream that are whole and fit.
-- - Firmware: the stick. Firmware/Button is `Button` and Firmware/UsbTx is `UsbTx` of
--   firmware/src/main.rs. Firmware/Session is the loop of `main` in that file: the record
--   `Stick` has its local variables, `handle` is the match on a decoded message, `receive_all`
--   the reading of bytes, `press` the button, `timers` what time alone does, and `round` one
--   turn of the loop in the order of the code. Firmware/Network is the part of the state of
--   firmware/src/network.rs that the loop writes. Firmware/Notify is that file's
--   `notification_worker` with the rules for which incidents are news, Firmware/Dashboard its
--   `DashboardBuffer` with `push_html` and `render_metric`, Firmware/HealthJson its
--   `health_json`, and Firmware/Store is the settings store of firmware/src/provisioning.rs on
--   the bytes of its sector. Firmware/FrameBuffer is `ScreenBuffer` of
--   firmware/src/framebuffer.rs.
-- - Host: the daemon. Host/Shutdown is `EventHandler` and `SystemdShutdown` of
--   host/src/lib.rs; the record `World` logs, in order, each message written, each flush, each
--   call of systemctl and each query. Host/Probe is the connectivity probe of
--   host/src/health.rs: its threads and the calls of `snapshot` are a step relation, so a
--   result may arrive at any time. Host/Ups is that file's `UpsCollector`, with `parse_upsc`
--   in Host/Ups/Parse; Host/Guests is its `parse_guests`, and Host/Readers its parsers of
--   load, disks and routes. Host/Collect is its `HealthCollector`, where the record `Readings`
--   is what one call reads, Host/Interfaces its `resolve_interface`, on the files of sysfs,
--   and Host/Backup its `parse_backup_job_status`, on JSON values (Host/Json). Host/Config is
--   host/src/config.rs: the types, with Host/Config/Layout the reading of a view's layout from
--   YAML (Host/Yaml), Host/Config/Pages the pages and the two manifests, Host/Config/Validate
--   `Config::validate`, and Host/Config/Health and Host/Config/Evaluate the health rules.
--   Host/Daemon is the loop of `main` in host/src/main.rs: the record `Daemon` has its local
--   variables, the record `Turn` what one turn reads from outside (whether the port opens, the
--   times of the clock, the snapshot that the collecting thread left, the bytes), and `turn`
--   in Host/Daemon/Loop is one turn, part by part in the order of the code; a part ends in
--   going on, in a lost line, in the stop for a shutdown, or in an error of `main`.
--
-- The parts meet as they do in the code: Firmware/Session runs `push` and `decode` of Protocol
-- on the bytes it reads, sends through Firmware/UsbTx and writes the state that
-- Firmware/Notify reads; the host's validation encodes its manifests with `encode_host`, and
-- its handler writes the messages of Protocol; the daemon's loop runs `push` and
-- `decode_device` on what it reads, calls that handler, and sends the manifests and the
-- reports of Host/Config. Protocol/Equality compares two manifests as the loop does. Handshake
-- runs both loops against each other: the bytes of the daemon's hello through the stick, and
-- its answer through the daemon.
--
-- The numbers are natural numbers. Time is counted in microseconds; the subtractions that
-- saturate in the code stop at zero here. Where the code clamps or refuses at the width of an
-- integer (u8, u16, u32, usize), the bound is written out (Prelude/Words); where it wraps, so
-- is the remainder. An index out of range is `none`, so that a panic is visible and a theorem
-- can exclude it. Text is a list of code points (Prelude/Text). Every loop of the code runs
-- over a list or is one turn of an endless loop, so that all definitions are structural
-- recursions and no fuel is needed, but for `resolve_interface`, whose fuel is the depth of
-- its calls: more than there are interfaces is enough, as is proved. Twenty digits print any
-- u64 (Prelude/Decimal). The polling of the guests after the shutdown request takes the
-- answers of its queries as a list, behind which a query fails; it ends at a count of zero, a
-- query that fails or a report that cannot be written, as the code's loop does.
--
-- Parameters, for code that is not in the repository:
--
-- - `Codec`: postcard and cobs as `encode` and `decode` use them, with the laws `IsCodec`: an
--   encoding fits the space it is given, is bytes other than zero with one zero at the end,
--   and decodes to its message. The decoder changes its input in place; the model does not
--   show this in the buffer, which is not read again since `len` is then zero.
-- - `Sysfs`: what the search for an interface finds in the files.
-- - serde_json and serde_yaml: a document is given as its value.
-- - `UpsFigures` and the argument `percent` of Host/Guests: reading an f64 and clamping it.
-- - `Postcard`: the serialisation of the stored settings.
-- - `Floats`: the arithmetic of f64 and its formatting in health rules.
-- - The serial line's capacity in each turn, the outcome of a ping, of a publication, of
--   systemctl, and the guest queries.
--
-- Not modelled: what the display draws into its frame buffer; the HTTP server, the pages built
-- from the dashboard's parts and the provisioning form; Wi-Fi and mDNS; the host's readers of
-- CPU and memory figures, of addresses and of SMART; the daemon's command line, what it prints
-- and the start of its collecting thread; the parsing of the configuration file by serde,
-- durations and metric names included; the mock host. These are I/O, calls of libraries, or
-- parts that the model leaves out.
--
-- Protocol/Tests, Firmware/Tests, Firmware/NetworkTests, Firmware/PagesTests, Host/Tests,
-- Host/CollectTests, Host/ReadersTests, Host/Config/Tests, Host/Daemon/Tests, Handshake/Tests
-- and Prelude/Tests run the definitions on examples.
pub mod Prelude
pub mod Protocol
pub mod Firmware
pub mod Host
pub mod Handshake
