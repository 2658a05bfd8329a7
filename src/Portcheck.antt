-- ===== src/Portcheck.antt =====
-- internal/portcheck/portcheck.go: whether a socket of this host is bound to a port. A socket table
-- is what the scanner reads, its lines as the codes of their characters (ASCII), and the error that
-- stops the scanner, if one does.
pub mod Lines
pub mod Sockets
pub mod Tests
use nat_pmp.Common.{
  ℕ, ◌-◌, ◌^◌, String, Bool, true, false, not, ◌&&◌, ◌||◌, List, [], ◌∷◌, Option, none, some,
  length, get_or, ltb, ◌==◌, ◌!=◌, nat_eq, string_eq, list_eq, if◌then◌else◌,
}
use nat_pmp.Common.{Error, failed, wrapped, Result, ok, err, ◌>>=◌}
use nat_pmp.Common.Text.{codes, fields, parse_uint}
use nat_pmp.Mapping.{Protocol, tcp, udp}

abbrev pub tcp_listen_state : List ℕ
tcp_listen_state = codes "0A"

abbrev pub tcp_paths : List String
tcp_paths = "/proc/net/tcp" ∷ "/proc/net/tcp6" ∷ []

abbrev pub udp_paths : List String
udp_paths = "/proc/net/udp" ∷ "/proc/net/udp6" ∷ []

-- What `os.Open` answers: the file is missing, another error, or the table that the file holds.
pub data Opened : Type 0 where
  missing : Opened
  refused : Error → Opened
  table : List (List ℕ) → Option Error → Opened

-- What stands behind the last `b`.
unfoldable pub after_last : ℕ → List ℕ → Option (List ℕ)
after_last b [] = none
after_last b (c ∷ s) = elim (after_last b s) [
  | some rest ↦ some rest
  | none ↦ if c == b then some s else none
]

-- The second result is whether the first is there.
unfoldable pub parse_local_port : List ℕ → Option ℕ
parse_local_port local_addr = elim (after_last b':' local_addr) [
  | none ↦ none
  | some hex ↦ elim (parse_uint hex 16 (2 ^ 16 - 1)) [ ok v ↦ some v | err e ↦ none ]
]

has_port : Option ℕ → ℕ → Bool
has_port none port = false
has_port (some local_port) port = local_port == port

-- The loop's body: whether it returns true on a line, or continues.
unfoldable pub is_bound : ℕ → Bool → List ℕ → Bool
unfolding has_port
is_bound port require_listen line =
    let row = fields line in
    not (ltb (length row) 4)
    && has_port (parse_local_port (get_or row 1 [])) port
    && not (require_listen && get_or row 3 [] != tcp_listen_state)

unfoldable pub scan_lines : List (List ℕ) → Option Error → ℕ → Bool → Result Bool
scan_lines [] (some e) port require_listen = err (wrapped "portcheck: read socket table" e)
scan_lines [] none port require_listen = ok false
scan_lines (line ∷ lines) stopped port require_listen =
    let rest = scan_lines lines stopped port require_listen in
    if is_bound port require_listen line then ok true else rest

-- The header line is skipped.
unfoldable pub scan : List (List ℕ) → Option Error → ℕ → Bool → Result Bool
scan [] (some e) port require_listen = err (wrapped "portcheck: read socket table" e)
scan [] none port require_listen = ok false
scan (header ∷ lines) stopped port require_listen = scan_lines lines stopped port require_listen

module _ (open_file : String → Opened) where
  unfoldable pub scan_path : String → ℕ → Bool → Result Bool
  scan_path path port require_listen = elim (open_file path) [
    | missing ↦ ok false
    | refused e ↦ err (wrapped "portcheck: open" e)
    | table lines stopped ↦ scan lines stopped port require_listen
  ]

  -- The loop over the files.
  unfoldable pub scan_paths : List String → ℕ → Bool → Result Bool
  scan_paths [] port tcp_only = ok false
  scan_paths (path ∷ paths) port tcp_only = do
    found ← scan_path path port tcp_only
    let rest = scan_paths paths port tcp_only
    if found then ok true else rest

  unfoldable pub has_listener : Protocol → ℕ → Result Bool
  has_listener protocol port =
      if protocol == tcp
      then scan_paths tcp_paths port true
      else if protocol == udp
      then scan_paths udp_paths port false
      else err (failed "portcheck: invalid protocol")
