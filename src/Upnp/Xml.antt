-- ===== src/Upnp/Xml.antt =====
-- `escapeXML` of internal/portmapper/upnp/soap.go, which is `EscapeText` of Go's encoding/xml. A
-- `String` is valid UTF-8, as the texts of the configuration are.
pub mod Reader
use Prim.Native.Char.{Char, code}
use Prim.Native.String.{◌++◌ as ◌<>◌}
use nat_pmp.Common.{ℕ, String, Bool, ◌&&◌, ◌||◌, leb, ◌==◌, nat_eq, if◌then◌else◌}

-- `isInCharacterRange`
unfoldable pub in_character_range : ℕ → Bool
in_character_range c =
    c == 9
    || c == 10
    || c == 13
    || (leb 0x20 c && leb c 0xd7ff)
    || (leb 0xe000 c && leb c 0xfffd)
    || (leb 0x10000 c && leb c 0x10ffff)

unfoldable pub escape_char : Char → String
escape_char c =
    if code c == b'"'
    then "&#34;"
    else if code c == b'\''
    then "&#39;"
    else if code c == b'&'
    then "&amp;"
    else if code c == b'<'
    then "&lt;"
    else if code c == b'>'
    then "&gt;"
    else if code c == 9
    then "&#x9;"
    else if code c == 10
    then "&#xA;"
    else if code c == 13
    then "&#xD;"
    else if in_character_range (code c)
    then String.◌∷◌ c ""
    else "�"

unfoldable pub escape_xml : String → String
escape_xml String.[] = ""
escape_xml (String.◌∷◌ c s) = escape_char c <> escape_xml s
