-- ===== src/Repeater/Rules/Forwards.antt =====
-- When a flood is sent on: the conditions that the rules set are enough.
use mcrs.Prelude.{ℕ, ◌≡◌, refl, Bool, true, false, ◌&&◌, Option, some, List, leb}
use mcrs.Protocol.Error.{ok}
use mcrs.Protocol.Header.{is_flood}
use mcrs.Protocol.NodePath.{NodePath, hop_count}
use mcrs.Protocol.Payload
use mcrs.Protocol.Packet.{Packet, append_flood_hop, dedup_signature}
use mcrs.Repeater.LoopDetection.{detects_loop}
use mcrs.Repeater.Regions.{RegionEntry, is_wildcard}
use mcrs.Repeater.Regions.Scope.{match_flood_region}
use mcrs.Repeater.Rules.{
  ForwardConfig, next, stop_if, some_or, ok_or_stop, finish, ◌>>=◌, ◌>>◌, normal_path, is_advert,
  forwarded, captured, prepare_flood_forward,
}

module _ (sha256 : List ℕ → List ℕ) (hmac : List ℕ → List ℕ → Option (List ℕ)) where
  -- A flood that belongs to a region, on a path that shows no loop and has room below the limits,
  -- is sent on.
  pub prepare_flood_forward_forwards :
      (c : ForwardConfig) (p was q : Packet) (b : Bool) (node_hash signature : List ℕ)
      (region : RegionEntry) (path : NodePath)
      → is_flood p.route_type ≡ true
      → captured sha256 hmac c p ≡ next (b, was)
      → match_flood_region sha256 hmac c.regions was ≡ some region
      → normal_path was ≡ some path
      → detects_loop c.loop_detection path node_hash ≡ false
      → (is_advert (Payload.kind was.payload) && leb c.flood_max_advert_hops (hop_count path))
        ≡ false
      → (is_wildcard region && leb c.flood_max_unscoped_hops (hop_count path)) ≡ false
      → dedup_signature sha256 was ≡ ok signature
      → append_flood_hop was node_hash ≡ ok q
      → prepare_flood_forward sha256 hmac c p node_hash ≡ forwarded b q signature
  unfolding prepare_flood_forward finish ◌>>=◌ ◌>>◌ stop_if some_or ok_or_stop
  prepare_flood_forward_forwards c p was q b node_hash signature region path r e m n l a u s t =
      rw (r, e, m, n, l, a, u, s, t) refl
