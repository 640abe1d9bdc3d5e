-- ===== src/LibDspc/Tests.antt =====
-- Examples of the theorems about LibDspc.cpp.
use processing_common.Common.{u16, ℕ, ◌*◌, ◌≡◌, refl, arith, List, [], ◌∷◌, ◌++◌, none, some}
use processing_common.LibDspc.Dump.{hex_dump}
use processing_common.LibDspc.Dump.Lines.{line_texts, hex_dump_lines, hex_dump_endless}
use processing_common.LibDspc.Url.{url_to_parts}
use processing_common.LibDspc.Url.Parts.{url_of}
use processing_common.LibDspc.Url.Roundtrip.{url_to_parts-url_of}
use processing_common.LibDspc.Hex.{to_hex_str, to_hex}
use processing_common.LibDspc.Hex.Roundtrip.{AllBytes, to_hex-to_hex_str}

abbrev bytes : List ℕ
bytes = 0 ∷ 0x7f ∷ 0xa0 ∷ 0xff ∷ []

bytes-AllBytes : AllBytes bytes
bytes-AllBytes = (omega arith, (omega arith, (omega arith, (omega arith, tt))))

to_hex-to_hex_str_example : to_hex (to_hex_str bytes) ≡ bytes
to_hex-to_hex_str_example = to_hex-to_hex_str bytes bytes-AllBytes

abbrev ch : ℕ → List ℕ
ch c = c ∷ []

url_to_parts-url_of_example :
    url_to_parts (λ str. 80) (url_of (ch b'p') (ch b'h') (ch b'8') (ch b'a') (ch b's')) ≡ record {
      protocol = ch b'p';
      host = ch b'h';
      port = u16 80;
      path = ch b'a';
      queries = ch b's';
    }
url_to_parts-url_of_example =
    url_to_parts-url_of (λ str. 80) (ch b'p') (ch b'h') (ch b'8') (ch b'a') (ch b's') (refl, tt)
      (omega arith) (refl, tt) (refl, tt) (refl, tt) (refl, tt) (omega arith)

abbrev append_info : List ℕ → List ℕ → List ℕ
append_info buf txt = buf ++ txt

hex_dump_lines_example :
    hex_dump append_info 4 (b'p' ∷ []) (b'n' ∷ []) 3 bytes
    ≡ some ((b'p' ∷ b' ' ∷ b' ' ∷ b'n' ∷ []) ∷ line_texts 4 3 0 bytes)
hex_dump_lines_example =
    hex_dump_lines append_info (λ buf txt h. refl) 4 (b'p' ∷ []) (b'n' ∷ []) 3 bytes (omega arith)
      (omega arith) (omega arith) (omega arith)

hex_dump_endless_example : hex_dump append_info 100 (b'p' ∷ []) (b'n' ∷ []) (256 * 2) bytes ≡ none
hex_dump_endless_example =
    hex_dump_endless append_info 100 2 (b'p' ∷ []) (b'n' ∷ []) bytes (omega arith)
