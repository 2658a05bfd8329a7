-- ===== src/Upnp/Ssdp.antt =====
-- internal/portmapper/upnp/ssdp.go: the collection of SSDP responses. Datagrams and header lines are
-- lists of bytes.
pub mod Collected
pub mod Discover
pub mod Tests
use nat_pmp.Common.{
  ℕ, ◌+◌, Bool, true, false, not, ◌&&◌, ◌||◌, List, [], ◌∷◌, ◌++◌, map, Option, none, some, length,
  leb, contains, ◌==◌, nat_eq, list_eq, if◌then◌else◌,
}
use nat_pmp.Common.{Error, failed, wrapped, Result, ok, err}
use nat_pmp.Common.Text.{codes}

-- What precedes the first `\n`, and the parts behind each `\n`.
unfoldable pub segments : List ℕ → List ℕ × List (List ℕ)
segments [] = ([], [])
segments (c ∷ s) =
    let (head, rest) = segments s in if c == 10 then ([], head ∷ rest) else (c ∷ head, rest)

-- All but the last part: what `ReadString('\n')` reads before it meets the end.
unfoldable pub terminated : List ℕ → List (List ℕ) → List (List ℕ)
terminated line [] = []
terminated line (next ∷ rest) = line ∷ terminated next rest

-- strings.TrimRight(line, "\r\n")
trim_cons : ℕ → List ℕ → List ℕ
trim_cons c [] = if c == 13 || c == 10 then [] else c ∷ []
trim_cons c (x ∷ s) = c ∷ x ∷ s

unfoldable pub trim_line : List ℕ → List ℕ
unfolding trim_cons
trim_line [] = []
trim_line (c ∷ s) = trim_cons c (trim_line s)

-- strings.TrimLeft(value, " \t")
unfoldable pub trim_blanks : List ℕ → List ℕ
trim_blanks [] = []
trim_blanks (c ∷ s) = let rest = trim_blanks s in if c == 32 || c == 9 then rest else c ∷ s

-- strings.Cut(line, ":")
unfoldable pub cut_colon : List ℕ → Option (List ℕ × List ℕ)
cut_colon [] = none
cut_colon (c ∷ s) = elim (c == b':') [
  | true ↦ some ([], s)
  | false ↦ elim (cut_colon s) [ none ↦ none | some (key, value) ↦ some (c ∷ key, value) ]
]

unfoldable pub split_header : List ℕ → Option (List ℕ × List ℕ)
split_header line = elim (cut_colon line) [
  | none ↦ none
  | some (key, value) ↦ some (key, trim_blanks value)
]

abbrev pub ascii_lower : ℕ → ℕ
ascii_lower c = if leb b'A' c && leb c b'Z' then c + 32 else c

-- Whether `http.Header` files the key under "Location".
abbrev pub is_location : List ℕ → Bool
is_location key = map ascii_lower key == codes "location"

-- The loop over the header lines, and `tp.Get("Location")`: the first such value, or the empty one.
unfoldable pub header_location : List (List ℕ) → List ℕ
header_location [] = []
header_location (line ∷ lines) =
    let rest = header_location lines in
    let trimmed = trim_line line in
    if trimmed == [] then [] else elim (split_header trimmed) [
      | none ↦ rest
      | some (key, value) ↦ if is_location key then value else rest
    ]

unfoldable pub parse_location : List ℕ → Result (List ℕ)
parse_location datagram =
    let (head, rest) = segments datagram in
    elim (terminated head rest) [
      | [] ↦ err (failed "EOF")
      | status_line ∷ lines ↦ ok (header_location lines)
    ]

-- What the loop meets in a round: the context is done, a read fails, or a datagram arrives. The end
-- of the list is the timeout that ends the collection window.
pub data Arrival : Type 0 where
  cancelled : Error → Arrival
  read_failed : Error → Arrival
  datagram : List ℕ → Arrival

-- `len(results) > 0`
abbrev pub or_results : List (List ℕ) → Error → Result (List (List ℕ))
or_results [] e = err e
or_results (r ∷ results) e = ok (r ∷ results)

-- The location of a datagram; an error is the empty one, which is skipped as well.
abbrev pub location_of : List ℕ → List ℕ
location_of d = elim (parse_location d) [ ok loc ↦ loc | err e ↦ [] ]

-- What one datagram adds. The results are also the keys of `seen`.
abbrev pub next_results : List (List ℕ) → List ℕ → List (List ℕ)
next_results results loc =
    if loc == [] || contains results loc then results else results ++ (loc ∷ [])

unfoldable pub collect_results : List (List ℕ) → List Arrival → Result (List (List ℕ))
collect_results results [] = or_results results (failed "upnp: no SSDP responses")
collect_results results (cancelled e ∷ more) = or_results results e
collect_results results (read_failed e ∷ more) = err (wrapped "upnp: ssdp read" e)
collect_results results (datagram d ∷ more) =
    collect_results (next_results results (location_of d)) more
