-- ===== src/Client/Tests.antt =====
-- A stream of five bytes in two pieces, with a signal between them.
use g_plat.Prelude.{◌≡◌, some, List, [], ◌∷◌, arith, length, take, drop}
use g_plat.Client.{Reading, got, interrupted, bytes, readn}
use g_plat.Client.Stream.{stream, readn-stream}

abbrev pieces : List Reading
pieces = got (1 ∷ 2 ∷ []) ∷ interrupted ∷ got (3 ∷ []) ∷ got (4 ∷ 5 ∷ []) ∷ []

readn-stream_example :
    (rest : List Reading) × (readn 3 pieces ≡ some (bytes (take 3 (stream pieces)), rest))
    × (length (take 3 (stream pieces)) ≡ 3)
    × (stream rest ≡ drop 3 (stream pieces))
readn-stream_example =
    readn-stream 3 pieces (omega arith, (omega arith, (omega arith, (omega arith, tt))))
