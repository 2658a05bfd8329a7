-- ===== src/Upnp/Ssdp/Tests.antt =====
-- A search that two datagrams answer, of which the second repeats the first.
use nat_pmp.Common.{
  ℕ, ◌<◌, ◌≡◌, ◌≢◌, refl, arith, List, [], ◌∷◌, none, some, ltb, length, contains, list_eq, nat_eq,
  string_eq, if◌then◌else◌, ok,
}
use nat_pmp.Common.Text.Decimal.{decimal}
use nat_pmp.Common.Text.{codes}
use nat_pmp.Addr.{AddrPort, v4}
use nat_pmp.Network.{Net, History, Read, datagram, timed_out}
use nat_pmp.Upnp.Ssdp.{
  segments, terminated, trim_line, trim_blanks, cut_colon, split_header, header_location,
  parse_location,
}
use nat_pmp.Upnp.Ssdp.Collected.{AreDistinct}
use nat_pmp.Upnp.Ssdp.Discover.{
  default_search_timeout, build_search_request, collect, search_deadline, discover_with_conn,
  discover,
}
use nat_pmp.Upnp.Ssdp.Discover.Found.{names, discover-found}
use nat_pmp.Upnp.Ssdp.Discover.Ends.{datagrams, EndsWithin, discover-ends}

abbrev reply : List ℕ
reply = codes "HTTP/1.1 200 OK\r\nLocation: http://gw\r\n\r\n"

abbrev device : AddrPort
device = record { addr = v4 0xc0a80101; port = 1900 }

abbrev next_read : ℕ → Read
next_read n = if ltb n 2 then datagram reply device else timed_out

abbrev pub net : Net
net = record {
  ctx_err = λ h. none;
  ctx_deadline = none;
  listen = λ h a. none;
  probe = λ h to. ok none;
  nonce = λ h. ok [];
  write = λ h b to. ok (length b);
  now = λ h. 0;
  refuse_deadline = λ h dl. none;
  read = λ h. next_read (datagrams h);
}

quiet :
    (h : History) (d : List ℕ) (from : AddrPort) → net.read h ≡ datagram d from → datagrams h < 2
quiet h d from q = ground arith

discover-ends_example : EndsWithin 2 (discover net 3 default_search_timeout [])
discover-ends_example = discover-ends net 2 quiet 3 default_search_timeout (omega arith)

abbrev pub calls : History
calls = elim (discover net 3 default_search_timeout []) [ none ↦ [] | some (r, h) ↦ h ]

found : discover net 3 default_search_timeout [] ≡ some (ok (codes "http://gw" ∷ []), calls)
unfolding discover discover_with_conn collect search_deadline build_search_request decimal
    parse_location segments terminated header_location trim_line trim_blanks cut_colon split_header
    list_eq nat_eq
found = refl

discover-found_test :
    (codes "http://gw" ∷ [] ≢ [])
    × AreDistinct (codes "http://gw" ∷ [])
    × ((loc : List ℕ) → contains (codes "http://gw" ∷ []) loc ≡ names calls loc)
discover-found_test =
    discover-found net 3 default_search_timeout (codes "http://gw" ∷ []) calls found

request_test :
    build_search_request default_search_timeout
    ≡ codes
        "M-SEARCH * HTTP/1.1\r\nHOST: 239.255.255.250:1900\r\nMAN: \"ssdp:discover\"\r\nMX: 2\r\nST: urn:schemas-upnp-org:device:InternetGatewayDevice:1\r\n\r\n"
unfolding build_search_request decimal nat_eq
request_test = refl

-- A longer wait.
long_wait : decimal 120 ≡ "120"
unfolding decimal
long_wait = refl
