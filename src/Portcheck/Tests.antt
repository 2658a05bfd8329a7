-- ===== src/Portcheck/Tests.antt =====
-- A host with a web server on port 8080 and without IPv6.
use nat_pmp.Common.{
  ℕ, ◌≡◌, refl, String, true, false, List, [], ◌∷◌, none, ◌==◌, if◌then◌else◌, string_eq, nat_eq,
  list_eq, ok,
}
use nat_pmp.Common.Text.{codes, is_space, fields, digit, parse_digits, parse_uint}
use nat_pmp.Mapping.{tcp}
use nat_pmp.Portcheck.{
  Opened, missing, table, tcp_paths, udp_paths, after_last, parse_local_port, is_bound, scan_lines,
  scan, scan_path, scan_paths, has_listener,
}
use nat_pmp.Portcheck.Sockets.{AnyShows, has_listener-AnyShows}

abbrev header : List ℕ
header = codes "sl local_address rem_address st"

abbrev open_file : String → Opened
open_file path =
    if path == "/proc/net/tcp"
    then table
        (header
          ∷ codes "0: 0100007F:0016 00000000:0000 0A"
          ∷ codes "1: 00000000:1F90 00000000:0000 0A"
          ∷ [])
        none
    else missing

web_listens : has_listener open_file tcp 8080 ≡ ok true
unfolding has_listener scan_paths scan_path scan scan_lines is_bound parse_local_port after_last
    parse_uint parse_digits digit fields is_space string_eq nat_eq list_eq
web_listens = refl

nobody_listens : has_listener open_file tcp 8081 ≡ ok false
unfolding has_listener scan_paths scan_path scan scan_lines is_bound parse_local_port after_last
    parse_uint parse_digits digit fields is_space string_eq nat_eq list_eq
nobody_listens = refl

has_listener-AnyShows_example :
    AnyShows open_file 8080 (tcp == tcp) (if tcp == tcp then tcp_paths else udp_paths) true
has_listener-AnyShows_example = has_listener-AnyShows open_file tcp 8080 true web_listens
