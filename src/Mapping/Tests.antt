-- ===== src/Mapping/Tests.antt =====
-- A request for a UDP port, with a lease of ten minutes.
use nat_pmp.Common.{◌*◌, ◌^◌, ◌<◌, ◌≡◌, ◌≢◌, ◌↔◌, refl, arith, false, string_eq, nat_eq, ok}
use nat_pmp.Common.Int.{pos, second, nanoseconds}
use nat_pmp.Addr.{invalid}
use nat_pmp.Mapping.{Request, udp, validate, valid, lifetime_or, wire_seconds}
use nat_pmp.Mapping.Validity.{IsWellFormed, validate_iff, wire_seconds-lifetime_or}

abbrev game : Request
game = record {
  protocol = udp;
  internal_port = 27_015;
  internal_address = invalid;
  external_port = 0;
  description = "";
  lease = pos (600 * second);
  require_listener = false;
}

game_valid : validate game ≡ ok tt
unfolding validate valid string_eq nat_eq
game_valid = refl

validate_iff_example : (validate game ≡ ok tt) ↔ IsWellFormed game
validate_iff_example = validate_iff game

wire_seconds-lifetime_or_example :
    (wire_seconds (lifetime_or (3600 * second) game) * second
      ≡ nanoseconds (lifetime_or (3600 * second) game))
    × (wire_seconds (lifetime_or (3600 * second) game) < 2 ^ 32)
    × (wire_seconds (lifetime_or (3600 * second) game) ≢ 0)
wire_seconds-lifetime_or_example =
    wire_seconds-lifetime_or (3600 * second) game (omega arith) (omega arith) game_valid
