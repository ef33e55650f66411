-- ===== src/Middleware/Address.antt =====
-- auth.go: the address whose failures are counted, with what it uses of `net.SplitHostPort`.
use carrier_gateway.Prelude.{
  ℕ, Text, is_empty, Bool, false, ◌||◌, ◌==◌, List, [], ◌∷◌, if◌then◌else◌,
}
use carrier_gateway.Prelude.Parts.{split}

abbrev pub has_byte : ℕ → Text → Bool
has_byte b [] = false
has_byte b (c ∷ s) = (c == b) || has_byte b s

-- The host before the only colon.
abbrev plain_host : Text → List Text → Text
plain_host s (host ∷ port ∷ []) = if has_byte 0x5B s || has_byte 0x5D s then [] else host
plain_host s _ = []

-- What follows the bracket that closes: a colon and a port without one.
abbrev bracket_port : Text → Text → Text
bracket_port host [] = []
bracket_port host (c ∷ port) = if c == 0x3A then (if has_byte 0x3A port then [] else host) else []

abbrev bracket_host : Text → List Text → Text
bracket_host s (host ∷ after ∷ []) = if has_byte 0x5B s then [] else bracket_port host after
bracket_host s _ = []

-- The host of `net.SplitHostPort`, which is empty on an error.
unfoldable pub split_host : Text → Text
split_host [] = []
split_host (c ∷ s) =
    if c == 0x5B then bracket_host s (split 0x5D s) else plain_host (c ∷ s) (split 0x3A (c ∷ s))

unfoldable pub client_ip : Text → Text
unfolding split_host
client_ip remote_addr = let ip = split_host remote_addr in if is_empty ip then remote_addr else ip
