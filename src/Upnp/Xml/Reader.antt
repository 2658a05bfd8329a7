-- ===== src/Upnp/Xml/Reader.antt =====
-- How a reader of XML takes the texts that internal/portmapper/upnp/soap.go escapes.
use Prim.Native.Char.{Char, code}
use nat_pmp.Common.{
  ℕ, ◌≡◌, ◌≢◌, refl, ap, ◌∙◌, arith, String, inl, inr, Bool-cases, List, [], ◌∷◌, ◌++◌, map, Option,
  none, some, ◌==◌, nat_eq, list_eq, if◌then◌else◌,
}
use mathlib.Core.List.{append_assoc}
use nat_pmp.Common.Text.{codes, codes-append}
use nat_pmp.Upnp.Xml.{in_character_range, escape_char, escape_xml}

-- The character of a reference, between `&` and `;`.
unfoldable pub entity : List ℕ → Option ℕ
entity name =
    if name == codes "amp"
    then some b'&'
    else if name == codes "lt"
    then some b'<'
    else if name == codes "gt"
    then some b'>'
    else if name == codes "#34"
    then some b'"'
    else if name == codes "#39"
    then some b'\''
    else if name == codes "#x9"
    then some 9
    else if name == codes "#xA"
    then some 10
    else if name == codes "#xD"
    then some 13
    else none

-- A character before what is read of the rest.
abbrev pub before : Option ℕ → Option (List ℕ × List ℕ) → Option (List ℕ × List ℕ)
before none _ = none
before (some c) none = none
before (some c) (some (text, rest)) = some (c ∷ text, rest)

-- The text up to the next tag, with what follows; within a reference, its name so far. A text that
-- ends before a tag, or with a reference that is not known, is malformed.
unfoldable pub read_text : Option (List ℕ) → List ℕ → Option (List ℕ × List ℕ)
read_text name [] = none
read_text none (c ∷ s) =
    let text = read_text none s in
    let reference = read_text (some []) s in
    if c == b'<' then some ([], c ∷ s) else if c == b'&' then reference else before (some c) text
read_text (some name) (c ∷ s) =
    let text = read_text none s in
    let longer = read_text (some (name ++ (c ∷ []))) s in
    if c == b';' then before (entity name) text else longer

-- The characters that XML does not have are replaced.
abbrev pub clean : ℕ → ℕ
clean c = if in_character_range c then c else 0xfffd

-- A reader takes the escaped text for the character `c`.
Reads : String → ℕ → Type 0
Reads escaped c =
    (rest : List ℕ) → read_text none (codes escaped ++ rest) ≡ before (some c) (read_text none rest)

Reads-if :
    (n k : ℕ) (reference other : String)
    → Reads reference (clean k)
    → (n ≢ k → Reads other (clean n))
    → Reads (if n == k then reference else other) (clean n)
Reads-if n k reference other here there = elim (nat_eq.dec n k) [
  | yes same ↦
      let chosen : (if n == k then reference else other) ≡ reference = ground (arith, same) in
      rw (chosen, same) here
  | no differ ↦
      let chosen : (if n == k then reference else other) ≡ other = ground (arith, differ) in
      rw chosen (there differ)
]

Reads-plain : (c : Char) → code c ≢ b'<' → code c ≢ b'&' → Reads (String.◌∷◌ c "") (code c)
unfolding Reads read_text
Reads-plain c lt amp rest = ground arith

Reads-references :
    Reads "&#34;" (clean b'"')
    × Reads "&#39;" (clean b'\'')
    × Reads "&amp;" (clean b'&')
    × Reads "&lt;" (clean b'<')
    × Reads "&gt;" (clean b'>')
    × Reads "&#x9;" (clean 9)
    × Reads "&#xA;" (clean 10)
    × Reads "&#xD;" (clean 13)
unfolding Reads read_text entity in_character_range nat_eq list_eq
Reads-references = (
  λ rest. refl,
  λ rest. refl,
  λ rest. refl,
  λ rest. refl,
  λ rest. refl,
  λ rest. refl,
  λ rest. refl,
  λ rest. refl,
)

Reads-other :
    (c : Char)
    → code c ≢ b'<'
    → code c ≢ b'&'
    → Reads (if in_character_range (code c) then String.◌∷◌ c "" else "�") (clean (code c))
unfolding Reads read_text nat_eq
Reads-other c lt amp = elim (Bool-cases (in_character_range (code c))) [
  | inl known ↦ rw known (Reads-plain c lt amp)
  | inr unknown ↦ rw unknown (λ rest. refl)
]

Reads-escape_char : (c : Char) → Reads (escape_char c) (clean (code c))
unfolding escape_char
Reads-escape_char c =
    let (quot, apos, amp, lt, gt, tab, newline, return) = Reads-references in
    Reads-if (code c) b'"' "&#34;" _ quot (λ n1. Reads-if (code c) b'\'' "&#39;" _ apos (λ n2.
      Reads-if (code c) b'&' "&amp;" _ amp (λ n3. Reads-if (code c) b'<' "&lt;" _ lt (λ n4.
        Reads-if (code c) b'>' "&gt;" _ gt (λ n5. Reads-if (code c) 9 "&#x9;" _ tab (λ n6.
          Reads-if (code c) 10 "&#xA;" _ newline
            (λ n7. Reads-if (code c) 13 "&#xD;" _ return (λ n8. Reads-other c n4 n3))))))))

-- What comes before a tag is read back, each character that XML has as it was.
pub read_text-escape_xml :
    (s : String) (rest : List ℕ)
    → read_text none (codes (escape_xml s) ++ (b'<' ∷ rest))
      ≡ some (map clean (codes s), b'<' ∷ rest)
unfolding escape_xml Reads read_text nat_eq
read_text-escape_xml String.[] rest = refl
read_text-escape_xml (String.◌∷◌ c s) rest =
    let split = codes-append (escape_char c) (escape_xml s) in
    let tail = codes (escape_xml s) ++ (b'<' ∷ rest) in
    ap (λ l. read_text none (l ++ (b'<' ∷ rest))) split
    ∙ ap (read_text none)
        (append_assoc (codes (escape_char c)) (codes (escape_xml s)) (b'<' ∷ rest))
    ∙ Reads-escape_char c tail
    ∙ ap (before (some (clean (code c)))) (read_text-escape_xml s rest)
