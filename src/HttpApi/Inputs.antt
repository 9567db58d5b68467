-- ===== src/HttpApi/Inputs.antt =====
-- validateChannelInput, rejectPrivateHost, isPrivateAddress and decodeChannelInput of
-- backend/internal/httpapi/server.go. The URL parser, the address parser and the resolver are
-- outside the program.
pub mod Accepted
pub mod Stored
use xrestream.Base.{
  if◌then◌else◌, ◌&&◌, ◌++◌, ◌==◌, ◌||◌, ◌∷◌, Bool, List, Option, Text, [], codes, false, is_empty,
  none, not, some, text_eq, trim_space,
}
use xrestream.Base.Results.{Error, Result, err, message, ok}
use xrestream.Store.{ChannelInput}
use xrestream.Store.Database.{is_mode, is_status}

-- What netip says of an address.
pub record Addr : Type 0 where
  pub is_loopback : Bool
  pub is_private : Bool
  pub is_link_local_unicast : Bool
  pub is_link_local_multicast : Bool
  pub is_unspecified : Bool

pub record ParsedUrl : Type 0 where
  pub scheme : Text
  pub hostname : Text

-- url.Parse, netip.ParseAddr, strings.EqualFold(host, "localhost"), strings.ToLower, and
-- LookupIPAddr with AddrFromSlice of each of its addresses.
pub record Platform : Type 0 where
  pub parse_url : Text → Option ParsedUrl
  pub parse_addr : Text → Option Addr
  pub is_localhost : Text → Bool
  pub lower : Text → Text
  pub lookup_ip : Text → Result (List (Option Addr))

unfoldable pub is_private_address : Addr → Bool
is_private_address a =
    a.is_loopback || a.is_private || a.is_link_local_unicast || a.is_link_local_multicast
    || a.is_unspecified

unfoldable pub is_private_ip : Option Addr → Bool
unfolding is_private_address
is_private_ip none = false
is_private_ip (some a) = is_private_address a

unfoldable pub any_private : List (Option Addr) → Bool
unfolding is_private_ip
any_private [] = false
any_private (ip ∷ ips) = is_private_ip ip || any_private ips

-- The error of a check, or none.
unfoldable pub refuse : Text → Option Error
refuse why = some (message why)

unfoldable pub check_addresses : Result (List (Option Addr)) → Option Error
unfolding any_private refuse
check_addresses (err (message why)) = refuse (codes "inputUrl host lookup failed: " ++ why)
check_addresses (err e) = some e
check_addresses (ok ips) =
    if any_private ips
    then refuse (codes "inputUrl resolves to a private or local address")
    else none

module _ (p : Platform) where
  unfoldable pub reject_private_host : Text → Option Error
  unfolding check_addresses is_private_address refuse
  reject_private_host host =
      if p.is_localhost host
      then refuse (codes "inputUrl host cannot be localhost")
      else elim (p.parse_addr host) [
        | some a ↦
            if is_private_address a
            then refuse (codes "inputUrl cannot point to a private or local address")
            else none
        | none ↦ check_addresses (p.lookup_ip host)
      ]

  unfoldable pub check_url : Option ParsedUrl → Option Error
  unfolding reject_private_host refuse
  check_url none = refuse (codes "inputUrl must be a valid URL")
  check_url (some u) =
      if is_empty u.hostname
      then refuse (codes "inputUrl must be a valid URL")
      else if not (u.scheme == codes "http") && not (u.scheme == codes "https")
      then refuse (codes "inputUrl must use http or https")
      else reject_private_host u.hostname

  unfoldable pub validate_channel_input : ChannelInput → Option Error
  unfolding check_url refuse
  validate_channel_input input =
      if is_empty (trim_space input.name)
      then refuse (codes "name is required")
      else if is_empty (trim_space input.slug)
      then refuse (codes "slug is required")
      else if not (is_empty input.mode) && not (is_mode input.mode)
      then refuse (codes "mode must be ingest, proxy, or transmux")
      else if not (is_empty input.status) && not (is_status input.status)
      then refuse (codes "status must be active, disabled, or source_error")
      else check_url (p.parse_url input.input_url)

  -- What follows the decoder's answer: the input, or the error that badRequest writes.
  pub decode_channel_input : Result ChannelInput → Result ChannelInput
  unfolding validate_channel_input
  decode_channel_input (err e) = err e
  decode_channel_input (ok input) = elim (validate_channel_input input) [
    | none ↦ ok input
    | some e ↦ err e
  ]
