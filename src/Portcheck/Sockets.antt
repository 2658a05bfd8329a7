-- ===== src/Portcheck/Sockets.antt =====
-- What an answer of `HasListener` says of the socket tables.
use nat_pmp.Common.{
  ℕ, ◌≡◌, refl, arith, String, Bool, true, false, List, [], ◌∷◌, Option, none, some, ◌⊎◌, inl, inr,
  Bool-cases, Error, wrapped, ok, err, >>=-ok, ◌==◌, string_eq, if◌then◌else◌,
}
use nat_pmp.Mapping.{Protocol, tcp, udp}
use nat_pmp.Portcheck.Lines.{IsSocket, is_bound_iff}
use nat_pmp.Portcheck.{
  Opened, missing, refused, table, tcp_paths, udp_paths, is_bound, scan_lines, scan, scan_path,
  scan_paths, has_listener,
}

-- A line of the table stands for a socket that counts.
abbrev pub AnyBound : ℕ → Bool → List (List ℕ) → Type 0
AnyBound port require [] = ⊥
AnyBound port require (line ∷ lines) = IsSocket port require line ⊎ AnyBound port require lines

-- The same below the header line.
abbrev pub HasSocket : ℕ → Bool → List (List ℕ) → Type 0
HasSocket port require [] = ⊥
HasSocket port require (header ∷ lines) = AnyBound port require lines

-- The answer `true` for a file: it holds such a line. `false`: it is missing, or it was read to its
-- end and holds none.
abbrev pub Shows : ℕ → Bool → Opened → Bool → Type 0
Shows port require missing found = found ≡ false
Shows port require (refused e) found = ⊥
Shows port require (table lines stopped) true = HasSocket port require lines
Shows port require (table lines stopped) false = (¬ HasSocket port require lines) × (stopped ≡ none)

scan_lines-Shows :
    (header : List ℕ) (lines : List (List ℕ)) (stopped : Option Error) (port : ℕ)
    (require found : Bool)
    → scan_lines lines stopped port require ≡ ok found
    → Shows port require (table (header ∷ lines) stopped) found
unfolding scan_lines
scan_lines-Shows header [] (some x) port require found e = cc
scan_lines-Shows header [] none port require true e = cc
scan_lines-Shows header [] none port require false e = (λ h. h, refl)
scan_lines-Shows header (line ∷ lines) stopped port require true e =
    elim (Bool-cases (is_bound port require line)) [
      | inl here ↦ inl ((is_bound_iff port require line).0 here)
      | inr other ↦ inr (scan_lines-Shows header lines stopped port require true (rw other at e))
    ]
scan_lines-Shows header (line ∷ lines) stopped port require false e =
    elim (Bool-cases (is_bound port require line)) [
      | inl here ↦ absurd (ground arith)
      | inr other ↦
          let (nowhere, all) =
            scan_lines-Shows header lines stopped port require false (rw other at e) in
          (
            λ h. elim h [
              | inl here ↦ cc ((is_bound_iff port require line).1 here, other)
              | inr later ↦ nowhere later
            ],
            all,
          )
    ]

scan-Shows :
    (lines : List (List ℕ)) (stopped : Option Error) (port : ℕ) (require found : Bool)
    → scan lines stopped port require ≡ ok found
    → Shows port require (table lines stopped) found
unfolding scan
scan-Shows [] (some x) port require found e = cc
scan-Shows [] none port require true e = cc
scan-Shows [] none port require false e = (λ h. h, refl)
scan-Shows (header ∷ lines) stopped port require found e =
    scan_lines-Shows header lines stopped port require found e

opened-Shows :
    (o : Opened) (port : ℕ) (require found : Bool)
    → (elim o [
      | missing ↦ ok false
      | refused e ↦ err (wrapped "portcheck: open" e)
      | table lines stopped ↦ scan lines stopped port require
    ])
      ≡ ok found
    → Shows port require o found
opened-Shows missing port require found e = ground arith
opened-Shows (refused x) port require found e = cc
opened-Shows (table lines stopped) port require found e =
    scan-Shows lines stopped port require found e

module _ (open_file : String → Opened) where
  -- `true`: one of the files shows a socket. `false`: none does, and none could not be read.
  abbrev pub AnyShows : ℕ → Bool → List String → Bool → Type 0
  AnyShows port require [] found = found ≡ false
  AnyShows port require (path ∷ paths) true =
      Shows port require (open_file path) true ⊎ AnyShows port require paths true
  AnyShows port require (path ∷ paths) false =
      Shows port require (open_file path) false × AnyShows port require paths false

  scan_path-Shows :
      (path : String) (port : ℕ) (require found : Bool)
      → scan_path open_file path port require ≡ ok found
      → Shows port require (open_file path) found
  unfolding scan_path
  scan_path-Shows path port require found e = opened-Shows (open_file path) port require found e

  scanned-AnyShows :
      (path : String) (paths : List String) (port : ℕ) (require first found : Bool)
      → Shows port require (open_file path) first
      → (scan_paths open_file paths port require ≡ ok found → AnyShows port require paths found)
      → (if first then ok true else scan_paths open_file paths port require) ≡ ok found
      → AnyShows port require (path ∷ paths) found
  scanned-AnyShows path paths port require true true here later e = inl here
  scanned-AnyShows path paths port require true false here later e = cc
  scanned-AnyShows path paths port require false true here later e = inr (later e)
  scanned-AnyShows path paths port require false false here later e = (here, later e)

  scan_paths-AnyShows :
      (paths : List String) (port : ℕ) (require found : Bool)
      → scan_paths open_file paths port require ≡ ok found
      → AnyShows port require paths found
  unfolding scan_paths
  scan_paths-AnyShows [] port require found e = ground arith
  scan_paths-AnyShows (path ∷ paths) port require found e =
      let (first, e1, e2) = >>=-ok (scan_path open_file path port require) _ e in
      scanned-AnyShows path paths port require first found
        (scan_path-Shows path port require first e1) (scan_paths-AnyShows paths port require found)
        e2

  -- If `HasListener` answers true, one of the protocol's two tables has a line below the header of at
  -- least four fields, whose second field ends in a colon and the port in hexadecimal digits, and
  -- whose fourth is the state 0A, which is LISTEN, if the protocol is TCP. If it answers false, each of
  -- the two is missing, or was read to its end and has no such line.
  pub has_listener-AnyShows :
      (protocol : Protocol) (port : ℕ) (found : Bool)
      → has_listener open_file protocol port ≡ ok found
      → AnyShows port (protocol == tcp) (if protocol == tcp then tcp_paths else udp_paths) found
  unfolding has_listener
  has_listener-AnyShows protocol port found e = elim (Bool-cases (protocol == tcp)) [
    | inl is_tcp ↦ rw is_tcp (scan_paths-AnyShows tcp_paths port true found (rw is_tcp at e))
    | inr other ↦ elim (Bool-cases (protocol == udp)) [
      | inl is_udp ↦
          rw other (scan_paths-AnyShows udp_paths port false found (rw (other, is_udp) at e))
      | inr neither ↦ absurd (ground arith)
    ]
  ]
