-- ===== src/Tests/Paths.antt =====
-- Paths of hashes, and the samples of a trace.
use mathlib.Core.List.{reverse}
use mcrs.Prelude.{ℕ, ◌≡◌, refl, List, [], ◌∷◌, arith}
use mcrs.Prelude.Words.{negsuc}
use mcrs.Protocol.Error.{ok}
use mcrs.Protocol.HashSize.{HashSize, size}
use mcrs.Protocol.NodePath.{
  NodePath, hashes, append_hash, remove_first_hash, reversed, from_hashes, decode_wire,
}
use mcrs.Protocol.NodePath.Hops.{IsValid}
use mcrs.Protocol.NodePath.Reversed.{reversed-hashes, reversed-reversed}
use mcrs.Protocol.TracePath
use mcrs.Protocol.TracePath.{TracePath, append_snr, append_snr-IsValid}

-- Two hops of two bytes.
abbrev pair : NodePath
pair = record { hash_size = HashSize.two; bytes = 1 ∷ 2 ∷ 3 ∷ 4 ∷ [] }

abbrev pair_hashes : List (List ℕ)
pair_hashes = (1 ∷ 2 ∷ []) ∷ (3 ∷ 4 ∷ []) ∷ []

abbrev triple : NodePath
triple = record { hash_size = HashSize.two; bytes = 1 ∷ 2 ∷ 3 ∷ 4 ∷ 5 ∷ 6 ∷ [] }

pair-IsValid : IsValid pair
unfolding mcrs.Protocol.NodePath.hop_count size
pair-IsValid = record { fits = omega arith; whole = refl; short = omega arith }

hashes-pair : hashes pair ≡ pair_hashes
unfolding hashes mcrs.Protocol.NodePath.chunks_exact mcrs.Protocol.NodePath.chunks size
hashes-pair = refl

append_pair : append_hash pair (5 ∷ 6 ∷ 7 ∷ []) ≡ ok triple
unfolding append_hash size mcrs.Protocol.NodePath.hop_count
append_pair = refl

reversed-hashes_example :
    (hashes (reversed pair) ≡ reverse (hashes pair))
    × IsValid (reversed pair)
    × ((reversed pair).hash_size ≡ pair.hash_size)
reversed-hashes_example = reversed-hashes pair pair-IsValid

reversed-reversed_example : reversed (reversed pair) ≡ pair
reversed-reversed_example = reversed-reversed pair pair-IsValid

decode_pair : decode_wire 66 (1 ∷ 2 ∷ 3 ∷ 4 ∷ 9 ∷ []) ≡ ok (pair, 4)
unfolding decode_wire mcrs.Protocol.HashSize.from_code mcrs.Protocol.NodePath.checked_mul size
    mcrs.Protocol.NodePath.new mcrs.Protocol.NodePath.validate mcrs.Protocol.NodePath.hop_count
decode_pair = refl

abbrev sampled : TracePath
sampled = record { consumed_hops = 1; snr_samples = negsuc 19 ∷ [] }

sampled-IsValid : TracePath.IsValid sampled
sampled-IsValid = record { counted = refl; short = omega arith; samples = (omega arith, tt) }
