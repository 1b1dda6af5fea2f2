-- ===== src/Tests/Logins.antt =====
-- Remote logins and neighbours.
use mcrs.Prelude.{
  ℕ, ◌≡◌, ◌⊎◌, ◌-◌, ◌*◌, ◌/◌, ◌+◌, min, refl, true, false, Option, none, some, List, [], ◌∷◌,
  length, All, arith,
}
use mcrs.Prelude.Words.{pos, negsuc}
use mcrs.Protocol.HashSize.{HashSize}
use mcrs.Protocol.NodePath.{NodePath}
use mcrs.Protocol.Payload
use mcrs.Protocol.Payload.Advert.{Ed25519}
use mcrs.Protocol.Payload.Control.NodeType
use mcrs.Protocol.Packet.{Packet, normal}
use mcrs.Protocol.Header.{RouteType}
use mcrs.Protocol.Crypto.{zeros}
use mcrs.Repeater.RemoteLogins
use mcrs.Repeater.RemoteLogins.{
  RemoteLoginTable, guest, admin, authenticate, remove, privilege_for, accept_newer_timestamp,
}
use mcrs.Repeater.RemoteLogins.Sessions
use mcrs.Repeater.RemoteLogins.Sessions.{new-IsValid, holds}
use mcrs.Repeater.RemoteLogins.Logins.{
  authenticate-IsValid, authenticate-privilege, authenticate_other, remove-privilege,
}
use mcrs.Repeater.RemoteLogins.Timestamps.{accept_newer_timestamp_once}
use mcrs.Repeater.Neighbours
use mcrs.Repeater.Neighbours.{
  Neighbour, NeighbourTable, observe_packet, encode_binary_response, response_of,
}
use mcrs.Repeater.Neighbours.Table
use mcrs.Repeater.Neighbours.Table.{observe_packet-IsValid}
use mcrs.Repeater.Neighbours.Response.{encode_binary_response-counts}

abbrev no_hops : NodePath
no_hops = record { hash_size = HashSize.one; bytes = [] }

abbrev key : List ℕ
key = 1 ∷ 2 ∷ []

abbrev other_key : List ℕ
other_key = 1 ∷ 3 ∷ []

abbrev logged_in : RemoteLoginTable
logged_in = authenticate RemoteLogins.new key (9 ∷ []) admin 500 1000 no_hops

logged_in-IsValid : Sessions.IsValid logged_in
logged_in-IsValid =
    authenticate-IsValid RemoteLogins.new key (9 ∷ []) admin 500 1000 no_hops new-IsValid

authenticate-IsValid_example :
    Sessions.IsValid (authenticate logged_in other_key (8 ∷ []) guest 7 2000 no_hops)
authenticate-IsValid_example =
    authenticate-IsValid logged_in other_key (8 ∷ []) guest 7 2000 no_hops logged_in-IsValid

authenticate-privilege_example :
    (privilege_for (authenticate logged_in key (9 ∷ []) guest 501 2000 no_hops) key 602000).0
    ≡ some guest
authenticate-privilege_example =
    authenticate-privilege logged_in key (9 ∷ []) guest 501 2000 602000 no_hops logged_in-IsValid
      (omega arith)

authenticate_other_example :
    (holds (authenticate logged_in other_key (8 ∷ []) guest 7 2000 no_hops) key ≡ none)
    ⊎ (holds (authenticate logged_in other_key (8 ∷ []) guest 7 2000 no_hops) key
        ≡ (privilege_for logged_in key 2000).0)
authenticate_other_example =
    authenticate_other logged_in other_key (8 ∷ []) guest 7 2000 no_hops key logged_in-IsValid refl

remove-privilege_example : (privilege_for (remove logged_in key) key 1500).0 ≡ none
remove-privilege_example = remove-privilege logged_in key 1500 logged_in-IsValid

newer_accepted : (accept_newer_timestamp logged_in key admin 501 2000).0 ≡ true
unfolding accept_newer_timestamp RemoteLogins.timestamp_answer RemoteLogins.find_login
    RemoteLogins.entries_of RemoteLogins.prune RemoteLogins.prune_entries authenticate
    RemoteLogins.place_login RemoteLogins.set_at remove RemoteLogins.remove_login RemoteLogins.new
    RemoteLogins.free_index RemoteLogins.first_empty_index
newer_accepted = refl

accept_newer_timestamp_once_example :
    (accept_newer_timestamp
      (accept_newer_timestamp logged_in key admin 501 2000).1
      key
      admin
      501
      2500).0
    ≡ false
accept_newer_timestamp_once_example =
    accept_newer_timestamp_once admin logged_in key 501 2000 501 2500 logged_in-IsValid
      newer_accepted (omega arith)

abbrev heard : ℕ → ℕ → Neighbour
heard first time = record {
  public_key = first ∷ zeros 31;
  last_seen_ms = time;
  last_rssi = negsuc 80;
  last_snr_quarters = pos 20;
  packet_count = 1;
}

abbrev two_heard : NeighbourTable
two_heard = record { entries = heard 1 1000 ∷ heard 2 4000 ∷ []; capacity = 2 }

two_heard-IsValid : Table.IsValid (5 ∷ 5 ∷ 5 ∷ 5 ∷ []) two_heard
unfolding Table.Distinct mcrs.Prelude.Positions.position Neighbours.public_key_matches_hash
    mcrs.Protocol.Crypto.node_hash
two_heard-IsValid = record {
  room = omega arith;
  distinct = (refl, (refl, tt));
  others = (refl, (refl, tt));
}

-- Accepts every signature.
abbrev trusting : Ed25519
trusting = record { is_key = λ key. true; verifies = λ key message signature. true }

abbrev advertised : Packet
advertised = record {
  route_type = RouteType.flood;
  transport_codes = none;
  path = normal no_hops;
  payload = Payload.advert (record {
    public_key = 3 ∷ zeros 31;
    timestamp = 1;
    signature = zeros 64;
    app_data = some (record {
      node_type = NodeType.repeater;
      location = none;
      feature1 = none;
      feature2 = none;
      name = none;
    });
  });
}

observe_packet-IsValid_example :
    Table.IsValid
      (5 ∷ 5 ∷ 5 ∷ 5 ∷ [])
      (observe_packet trusting two_heard advertised (negsuc 70) (pos 12) 5000 (5 ∷ 5 ∷ 5 ∷ 5 ∷ []))
observe_packet-IsValid_example =
    observe_packet-IsValid trusting two_heard advertised (negsuc 70) (pos 12) 5000
      (5 ∷ 5 ∷ 5 ∷ 5 ∷ []) two_heard-IsValid

encode_binary_response-counts_example :
    (r : List ℕ × ℕ) × (encode_binary_response two_heard (6 ∷ 0 ∷ 10 ∷ 0 ∷ 0 ∷ 0 ∷ 4 ∷ []) 5000
      ≡ some (response_of 2 r))
    × (r.1 ≡ min (min 10 (2 - (0 + 0 * 256))) (130 / (min 4 32 + 5)))
    × (length r.0 ≡ r.1 * (min 4 32 + 5))
encode_binary_response-counts_example =
    encode_binary_response-counts two_heard 10 0 0 0 4 [] 5000 (refl, (refl, tt)) (omega arith)
