-- ===== src/Upnp/Tests/Envelopes.antt =====
-- An envelope with a description that tries to end its element.
use nat_pmp.Common.{◌≡◌, refl, arith, List, [], ◌∷◌, map, some, All, nat_eq}
use nat_pmp.Common.Text.{codes}
use nat_pmp.Upnp.Soap.{SoapArg, build_envelope, envelope_args}
use nat_pmp.Upnp.Xml.{escape_xml, escape_char, in_character_range}
use text.Mathlib.TextEquality.{eq_iff}
use nat_pmp.Common.{ℕ, ◌⊎◌, ◌≢◌}
use nat_pmp.Upnp.Soap.{asked_time}
use nat_pmp.Upnp.Client.{State, add_args, client_addr, map as map_mapping}
use nat_pmp.Upnp.Posts.{post_of, Carries, Adds, map-Posts}
use nat_pmp.Upnp.Tests.{net, parsers, game, target, game_valid}
use nat_pmp.Upnp.Envelope.{
  IsName, strip, read_elements, header, footer, as_read, build_envelope-arguments,
}

abbrev args : List SoapArg
args =
    record { name = "NewProtocol"; value = "TCP" }
    ∷ record { name = "NewPortMappingDescription"; value = "</A><B>&\"" }
    ∷ []

are_names : All (λ arg. IsName (codes arg.name)) args
are_names = ground arith

build_envelope-arguments_example :
    (s : List _) × (strip
        (codes (header "urn:wan" "AddPortMapping"))
        (codes (build_envelope "urn:wan" "AddPortMapping" args))
      ≡ some s)
    × (read_elements 2 s ≡ some (map as_read args, codes (footer "AddPortMapping")))
build_envelope-arguments_example =
    build_envelope-arguments "urn:wan" "AddPortMapping" args are_names

written :
    envelope_args args
    ≡ "<NewProtocol>TCP</NewProtocol><NewPortMappingDescription>&lt;/A&gt;&lt;B&gt;&amp;&#34;</NewPortMappingDescription>"
unfolding envelope_args escape_xml escape_char in_character_range nat_eq
written = refl

-- A client whose target is cached and whose address is set.
abbrev ready : State
ready = record { history = []; target = some target; internal_client = "192.168.1.2" }

abbrev added : List SoapArg
added = add_args game "192.168.1.2"

client_known : client_addr net game ready ≢ ""
client_known = ground (arith, eq_iff "192.168.1.2" "")

map-Posts_example :
    let h1 = post_of target "AddPortMapping" added ∷ [] in
    let h2 = post_of target "GetExternalIPAddress" [] ∷ h1 in
    let h' = (map_mapping net parsers game ready).1.history in
    (elements : List (List ℕ × List ℕ)) × Carries target "AddPortMapping" added elements
    × Adds game "192.168.1.2" elements
    × ((h' ≡ h1) ⊎ ((h' ≡ h2) ⊎ (h' ≡ asked_time ∷ h2)))
map-Posts_example =
    map-Posts net parsers game target ready game_valid (omega arith) (omega arith) refl refl
      client_known
