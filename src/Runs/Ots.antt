-- ===== src/Runs/Ots.antt =====
-- OpenTimestamps metadata behind another extension.
use steganographer.Common.{◌≡◌, refl, List, [], ◌∷◌, ◌++◌, some, arith, replicate, All}
use steganographer.Packet.Types.{ExtensionField}
use steganographer.Packet.Ots.{OtsMetadata, hex_encode_ots, from_extensions, to_extensions}
use steganographer.Packet.Ots.RoundTrip.{IsOts, IsOther, from_extensions-to_extensions}

abbrev stamped : OtsMetadata
stamped = record {
  digest = some (replicate 32 171);
  digest_hex = some (hex_encode_ots (replicate 32 171));
  method_tag = some 1;
  timestamp = some 1700000000;
}

stamped-IsOts : IsOts stamped
stamped-IsOts = record { digest_length = refl; timestamp_range = omega arith; display = refl }

abbrev comment : List ExtensionField
comment = record { id = 200; value = 7 ∷ 9 ∷ [] } ∷ []

comment-IsOther : All IsOther comment
comment-IsOther = ((omega arith, (omega arith, omega arith)), tt)

from_extensions-to_extensions_example : from_extensions (comment ++ to_extensions stamped) ≡ stamped
from_extensions-to_extensions_example =
    from_extensions-to_extensions stamped comment stamped-IsOts comment-IsOther
