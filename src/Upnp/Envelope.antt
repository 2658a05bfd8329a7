-- ===== src/Upnp/Envelope.antt =====
-- A reader of the envelopes that `buildEnvelope` of internal/portmapper/upnp/soap.go writes.
use Prim.Native.String.{◌++◌ as ◌<>◌}
use mathlib.Core.List.{append_assoc}
use nat_pmp.Common.{
  ℕ, zero, suc, ◌≡◌, ◌≢◌, refl, sym, ap, ◌∙◌, arith, String, List, [], ◌∷◌, ◌++◌, map, length,
  Option, none, some, All, ◌==◌, nat_eq, if◌then◌else◌,
}
use nat_pmp.Common.Text.{codes, codes-append}
use nat_pmp.Upnp.Xml.{escape_xml}
use nat_pmp.Upnp.Xml.Reader.{clean, read_text, read_text-escape_xml}
use nat_pmp.Upnp.Soap.{SoapArg, envelope_args, build_envelope}

-- What stands behind a prefix.
unfoldable pub strip : List ℕ → List ℕ → Option (List ℕ)
strip [] s = some s
strip (p ∷ prefix) [] = none
strip (p ∷ prefix) (c ∷ s) = let rest = strip prefix s in if c == p then rest else none

-- A name, up to the `>`.
unfoldable pub read_name : List ℕ → Option (List ℕ × List ℕ)
read_name [] = none
read_name (c ∷ s) =
    let more = read_name s in
    if c == b'>'
    then some ([], s)
    else elim more [ none ↦ none | some (name, rest) ↦ some (c ∷ name, rest) ]

-- An element that holds only text: its name and its text.
unfoldable pub read_element : List ℕ → Option ((List ℕ × List ℕ) × List ℕ)
read_element s = elim (strip (codes "<") s) [
  | none ↦ none
  | some s1 ↦ elim (read_name s1) [
    | none ↦ none
    | some (name, s2) ↦ elim (read_text none s2) [
      | none ↦ none
      | some (text, s3) ↦ elim (strip (codes "</" ++ (name ++ codes ">")) s3) [
        | none ↦ none
        | some rest ↦ some ((name, text), rest)
      ]
    ]
  ]
]

unfoldable pub read_elements : ℕ → List ℕ → Option (List (List ℕ × List ℕ) × List ℕ)
read_elements zero s = some ([], s)
read_elements (suc n) s = elim (read_element s) [
  | none ↦ none
  | some (element, rest) ↦ elim (read_elements n rest) [
    | none ↦ none
    | some (elements, end) ↦ some (element ∷ elements, end)
  ]
]

strip-append : (p s : List ℕ) → strip p (p ++ s) ≡ some s
unfolding strip
strip-append [] s = refl
strip-append (c ∷ p) s = ground (arith, strip-append p s)

-- No `>` in it.
abbrev pub IsName : List ℕ → Type 0
IsName name = All (λ c. c ≢ b'>') name

read_name-append : (name s : List ℕ) → IsName name → read_name (name ++ (b'>' ∷ s)) ≡ some (name, s)
unfolding read_name
read_name-append [] s p = ground arith
read_name-append (c ∷ name) s (other, p) = ground (arith, read_name-append name s p)

-- What a reader makes of an argument.
abbrev pub as_read : SoapArg → List ℕ × List ℕ
as_read arg = (codes arg.name, map clean (codes arg.value))

-- The codes of an element, before what follows.
abbrev element_codes : SoapArg → List ℕ → List ℕ
element_codes arg rest =
    codes "<"
    ++ (codes arg.name
        ++ (codes ">"
            ++ (codes (escape_xml arg.value)
                ++ (codes "</" ++ (codes arg.name ++ (codes ">" ++ rest))))))

envelope_args-codes :
    (arg : SoapArg) (args : List SoapArg)
    → codes (envelope_args (arg ∷ args)) ≡ element_codes arg (codes (envelope_args args))
unfolding envelope_args
envelope_args-codes arg args = simp codes-append

read_element-codes :
    (arg : SoapArg) (rest : List ℕ)
    → IsName (codes arg.name)
    → read_element (element_codes arg rest) ≡ some (as_read arg, rest)
unfolding read_element
read_element-codes arg rest p =
    let name = codes arg.name in
    let s4 = codes "</" ++ (name ++ (codes ">" ++ rest)) in
    let s3 = codes (escape_xml arg.value) ++ s4 in
    let e1 = strip-append (codes "<") (name ++ (codes ">" ++ s3)) in
    let e2 = read_name-append name s3 p in
    let e3 = read_text-escape_xml arg.value (47 ∷ (name ++ (codes ">" ++ rest))) in
    let e4 : strip (codes "</" ++ (name ++ codes ">")) s4 ≡ some rest =
      ap (strip (codes "</" ++ (name ++ codes ">")))
        (ap (λ l. codes "</" ++ l) (sym (append_assoc name (codes ">") rest)))
      ∙ strip-append (codes "</" ++ (name ++ codes ">")) rest in
    ground (arith, e1, e2, e3, e4)

read_elements-args :
    (args : List SoapArg) (rest : List ℕ)
    → All (λ arg. IsName (codes arg.name)) args
    → read_elements (length args) (codes (envelope_args args) ++ rest)
      ≡ some (map as_read args, rest)
unfolding read_elements envelope_args
read_elements-args [] rest p = refl
read_elements-args (arg ∷ args) rest (p, ps) =
    let later = codes (envelope_args args) in
    let moved : element_codes arg later ++ rest ≡ element_codes arg (later ++ rest) =
      simp append_assoc in
    let first : read_element (codes (envelope_args (arg ∷ args)) ++ rest)
        ≡ some (as_read arg, later ++ rest) =
      ap (λ l. read_element (l ++ rest)) (envelope_args-codes arg args)
      ∙ ap read_element moved
      ∙ read_element-codes arg (later ++ rest) p in
    ground (arith, first, read_elements-args args rest ps)

-- What stands before the arguments and behind them.
abbrev pub header : String → String → String
header service_type action =
    "<?xml version=\"1.0\" encoding=\"UTF-8\"?>\n"
    <> "<s:Envelope xmlns:s=\"http://schemas.xmlsoap.org/soap/envelope/\" "
    <> "s:encodingStyle=\"http://schemas.xmlsoap.org/soap/encoding/\">" <> "<s:Body>" <> "<u:"
    <> action <> " xmlns:u=\"" <> service_type <> "\">"

abbrev pub footer : String → String
footer action = "</u:" <> action <> ">" <> "</s:Body></s:Envelope>"

build_envelope-codes :
    (service_type action : String) (args : List SoapArg)
    → codes (build_envelope service_type action args)
      ≡ codes (header service_type action) ++ (codes (envelope_args args) ++ codes (footer action))
unfolding build_envelope
build_envelope-codes service_type action args = simp (codes-append, append_assoc)

-- The envelope of an action is a fixed header, the arguments and a fixed footer, and a reader of XML
-- takes the arguments back one by one: each has its own name, and its value with every character that
-- XML has, whichever characters the value holds. So no value, such as the description of a mapping, can
-- end its element early or add another. The names hold no `>`.
pub build_envelope-arguments :
    (service_type action : String) (args : List SoapArg)
    → All (λ arg. IsName (codes arg.name)) args
    → (s : List ℕ) × (strip
          (codes (header service_type action))
          (codes (build_envelope service_type action args))
        ≡ some s)
      × (read_elements (length args) s ≡ some (map as_read args, codes (footer action)))
build_envelope-arguments service_type action args names =
    let s = codes (envelope_args args) ++ codes (footer action) in
    (
      s,
      ap (strip (codes (header service_type action)))
            (build_envelope-codes service_type action args)
          ∙ strip-append (codes (header service_type action)) s,
      read_elements-args args (codes (footer action)) names,
    )
