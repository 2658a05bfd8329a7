-- ===== src/Upnp/Soap.antt =====
-- internal/portmapper/upnp/soap.go: SOAP actions over HTTP.
use Prim.Native.String.{◌++◌ as ◌<>◌}
use nat_pmp.Common.{
  ℕ, String, Bool, true, false, List, [], ◌∷◌, Option, none, some, ◌==◌, string_eq, nat_eq,
  if◌then◌else◌,
}
use nat_pmp.Common.{
  Error, conflict, no_resources, not_authorized, failed, wrapped, Result, ok, err, wrap, reject_if,
  ◌>>=◌, ◌>>◌,
}
use nat_pmp.Common.Int.{ℤ, pos, negsuc}
use nat_pmp.Common.Run.{Run}
use nat_pmp.Addr.{Addr}
use nat_pmp.Upnp.Xml.{escape_xml}

-- The calls that reach the network or the clock.
pub data Event : Type 0 where
  searched : Event
  fetched : String → Event
  posted : (url soap_action body : String) → Event
  asked_time : Event

abbrev pub History : Type 0
History = List Event

-- A control URL with the type of its service.
pub record ControlTarget : Type 0 where
  pub url : String
  pub service_type : String

-- The body is what reading its first 2^20 bytes yields.
pub record Response : Type 0 where
  pub status : ℕ
  pub body : Result String

-- What the XML decoder's `Token` returns: a start element, by its local name and what
-- `DecodeElement` makes of the element as a string, another token, or an error.
pub data Token : Type 0 where
  start_element : (local_name : String) (element : Result String) → Token
  other_token : Token
  token_error : Error → Token

-- The calls of the network, and the libraries' functions on requests, XML and addresses.
-- `request_error` is the error of `http.NewRequestWithContext` for a URL, `fault` is `xml.Unmarshal`
-- into a `faultDoc`, of which the code and the description remain, and `tokens` are those that the
-- XML decoder returns for a text up to its end.
pub record Net : Type 0 where
  pub search : History → Result (List String)
  pub request_error : String → Option Error
  pub get : History → String → Result Response
  pub post : History → (url soap_action body : String) → Result Response
  pub now : History → ℕ
  pub fault : String → Result (ℤ × String)
  pub tokens : String → List Token
  pub parse_addr : String → Result Addr
  pub addr_string : Addr → String

pub record SoapArg : Type 0 where
  pub name : String
  pub value : String

pub record SoapFault : Type 0 where
  pub code : ℤ
  pub description : String

abbrev pub err_conflict_in_mapping : ℕ
err_conflict_in_mapping = 718

abbrev pub err_no_such_entry : ℕ
err_no_such_entry = 714

abbrev pub err_action_not_authorized : ℕ
err_action_not_authorized = 606

abbrev pub err_out_of_resources : ℕ
err_out_of_resources = 728

-- The loop over the tokens.
unfoldable pub parse_string_field : List Token → String → Result String
parse_string_field [] field = err (failed "upnp: field not found in response")
parse_string_field (token_error e ∷ rest) field = err e
parse_string_field (other_token ∷ rest) field = parse_string_field rest field
parse_string_field (start_element local_name element ∷ rest) field =
    let later = parse_string_field rest field in if local_name == field then element else later

-- Deleting a mapping that is not there is no error: `ok tt` is `nil`.
unfoldable pub fault_error : String → SoapFault → Result (Unit {0})
fault_error action f = elim f.code [
  | negsuc n ↦ err (failed ("upnp: SOAP fault: " <> f.description))
  | pos code ↦
      if code == err_conflict_in_mapping
      then err (wrapped f.description conflict)
      else if code == err_out_of_resources
      then err (wrapped f.description no_resources)
      else if code == err_action_not_authorized
      then err (wrapped f.description not_authorized)
      else if code == err_no_such_entry
      then if action == "DeletePortMapping"
        then ok tt
        else err (failed ("upnp: SOAP fault: " <> f.description))
      else err (failed ("upnp: SOAP fault: " <> f.description))
]

abbrev is_zero : ℤ → Bool
is_zero (pos n) = n == 0
is_zero (negsuc n) = false

-- The loop of `buildEnvelope`.
unfoldable pub envelope_args : List SoapArg → String
envelope_args [] = ""
envelope_args (arg ∷ args) =
    "<" <> arg.name <> ">" <> escape_xml arg.value <> "</" <> arg.name <> ">" <> envelope_args args

unfoldable pub build_envelope : String → String → List SoapArg → String
build_envelope service_type action args =
    "<?xml version=\"1.0\" encoding=\"UTF-8\"?>\n"
    <> "<s:Envelope xmlns:s=\"http://schemas.xmlsoap.org/soap/envelope/\" "
    <> "s:encodingStyle=\"http://schemas.xmlsoap.org/soap/encoding/\">"
    <> "<s:Body>"
    <> "<u:"
    <> action
    <> " xmlns:u=\""
    <> service_type
    <> "\">"
    <> envelope_args args
    <> "</u:"
    <> action
    <> ">"
    <> "</s:Body></s:Envelope>"

module _ (net : Net) where
  unfoldable pub parse_fault : String → Result SoapFault
  parse_fault body = do
    decoded ← net.fault body
    reject_if (is_zero decoded.0) (failed "upnp: no UPnP error code in fault")
    ok (record { code = decoded.0; description = decoded.1 })

  -- The body of a good response; that of a fault that is no error is `nil`.
  unfoldable pub soap_result : String → Response → Result String
  soap_result action resp = do
    body ← wrap "upnp: read response" resp.body
    elim (resp.status == 200) [
      | true ↦ ok body
      | false ↦ elim (parse_fault body) [
        | err e ↦ err (failed ("upnp: action " <> action <> " failed"))
        | ok fault ↦ fault_error action fault >> ok ""
      ]
    ]

  unfoldable pub call_soap : ControlTarget → String → List SoapArg → Run History String
  call_soap ctrl action args h =
      let body : String = build_envelope ctrl.service_type action args in
      let soap_action : String = "\"" <> ctrl.service_type <> "#" <> action <> "\"" in
      elim (net.request_error ctrl.url) [
        | some e ↦ (err (wrapped "upnp: build request" e), h)
        | none ↦ (
          wrap "upnp: http do" (net.post h ctrl.url soap_action body) >>= soap_result action,
          posted ctrl.url soap_action body ∷ h,
        )
      ]
