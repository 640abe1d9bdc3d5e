-- ===== src/LibDspc/Url.antt =====
-- LibDspc.cpp: `urlToParts`. Positions are of 64 bits; `atoi` is the C library's.
pub mod Parts
pub mod Roundtrip
use processing_common.Common.{
  ℕ, zero, suc, ◌+◌, ◌-◌, Bool, true, false, ltb, ◌==◌, if◌then◌else◌, u16, sub64, List, [], ◌∷◌,
  Option, none, some, length, take, drop, get_or, find_last_of,
}
use processing_common.LibDspc.Strings.{find}

pub record UrlParts : Type 0 where
  pub protocol : List ℕ
  pub host : List ℕ
  pub port : ℕ
  pub path : List ℕ
  pub queries : List ℕ

-- The index left of one, if there is one.
abbrev pub before : ℕ → ℕ
before zero = 0
before (suc n) = n

abbrev pub substr : ℕ → ℕ → List ℕ → List ℕ
substr pos len str = take len (drop pos str)

abbrev pub scheme : List ℕ
scheme = b':' ∷ b'/' ∷ b'/' ∷ []

-- The protocol, and the first index behind it.
abbrev pub protocol_cut : List ℕ → Option ℕ → List ℕ × ℕ
protocol_cut url none = ([], 0)
protocol_cut url (some f) = (take f url, f + 3)

-- What is behind a position up to the last index, and the new last index.
abbrev pub cut : List ℕ → ℕ → Option ℕ → List ℕ × ℕ
cut url right none = ([], right)
cut url right (some f) = (substr (f + 1) (sub64 right f) url, before f)

abbrev pub shifted : ℕ → Option ℕ → Option ℕ
shifted pos none = none
shifted pos (some i) = some (pos + i)

-- The loop for the port, from an index down.
unfoldable pub last_colon : List ℕ → ℕ → ℕ → Option ℕ
last_colon url left zero = none
last_colon url left (suc idx) =
    let rest = last_colon url left idx in
    if ltb left (suc idx)
    then if get_or url (suc idx) 0 == b':' then some (suc idx) else rest
    else none

abbrev pub port_cut : (List ℕ → ℕ) → List ℕ → ℕ → Option ℕ → ℕ × ℕ
port_cut atoi url right none = (0, right)
port_cut atoi url right (some f) = (u16 (atoi (substr (f + 1) (sub64 right f) url)), before f)

unfoldable pub url_to_parts : (List ℕ → ℕ) → List ℕ → UrlParts
unfolding last_colon
url_to_parts atoi url =
    let protocol = protocol_cut url (find scheme url) in
    let left = protocol.1 in
    let queries = cut url (before (length url)) (find_last_of b'?' url) in
    let path = cut url queries.1 (shifted left (find (b'/' ∷ []) (drop left url))) in
    let port = port_cut atoi url path.1 (last_colon url left path.1) in
    record {
      protocol = protocol.0;
      host = substr left (sub64 (port.1 + 1) left) url;
      port = port.0;
      path = path.0;
      queries = queries.0;
    }

-- isValidEmail
unfoldable pub is_valid_email : List ℕ → Bool
is_valid_email mail = elim (find (b'@' ∷ []) mail) [ none ↦ false | some pos ↦ true ]

pub data AddrFamily : Type 0 where
  af_unspec af_inet af_inet6 : AddrFamily

-- What is between the first and the last byte, if the first is a bracket.
unfoldable pub unbracketed : List ℕ → List ℕ
unbracketed [] = []
unbracketed (c ∷ ip) = if c == b'[' then substr 0 (length ip - 1) ip else []

abbrev first_of : List ℕ → List ℕ → List ℕ
first_of [] ip = ip
first_of (c ∷ copy) ip = c ∷ copy

-- `valid4` and `valid6` are inet_pton() of the two families.
unfoldable pub type_ip : (List ℕ → Bool) → (List ℕ → Bool) → List ℕ → AddrFamily
unfolding unbracketed
type_ip valid4 valid6 ip =
    if valid4 ip
    then af_inet
    else if valid6 (first_of (unbracketed ip) ip)
    then af_inet6
    else af_unspec

unfoldable pub url_to_host : (List ℕ → ℕ) → List ℕ → List ℕ
unfolding url_to_parts
url_to_host atoi url = (url_to_parts atoi url).host
