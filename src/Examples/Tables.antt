-- ===== src/Examples/Tables.antt =====
-- The quotes table at concrete inputs.
use carrier_gateway.Prelude.{arith, inl, ℤ, pos, ◌≡◌, refl, Text, bytes, false, none, [], ◌∷◌}
use carrier_gateway.Domain.{ok, QuoteResult}
use carrier_gateway.Repository.{Row, save, find_by_request_id, has_key}
use carrier_gateway.Repository.Table.{UniqueKeys, save-idempotent, expired_rows_block}

abbrev quote : Text → ℤ → QuoteResult
quote carrier_id expires_at = record {
  request_id = bytes "r-1";
  carrier_id = carrier_id;
  premium = record { amount = pos 120000; currency = [] };
  expires_at = expires_at;
  carrier_ref = bytes "ref";
  latency = pos 1500000;
  is_hedged = false;
}

-- A row that expires at 100.
abbrev old_row : Row
old_row = record {
  request_id = bytes "r-1";
  carrier_id = bytes "alpha";
  premium_cents = pos 110000;
  currency = bytes "USD";
  expires_at = pos 100;
  is_hedged = false;
  latency_ms = pos 1;
}

save-idempotent_example :
    let after =
      (save none
        (bytes "r-1")
        (quote (bytes "alpha") (pos 900) ∷ quote (bytes "beta") (pos 900) ∷ [])
        (old_row ∷ [])).0 in
    UniqueKeys after
    × ((save none
          (bytes "r-1")
          (quote (bytes "alpha") (pos 900) ∷ quote (bytes "beta") (pos 900) ∷ [])
          after).0
        ≡ after)
unfolding has_key
save-idempotent_example =
    save-idempotent (bytes "r-1")
      (quote (bytes "alpha") (pos 900) ∷ quote (bytes "beta") (pos 900) ∷ []) (old_row ∷ [])
      (refl, tt)

-- At 500 the row has expired; the fresh quote is not stored.
expired_rows_block_example :
    let after =
      (save none (bytes "r-1") (quote (bytes "alpha") (pos 900000) ∷ []) (old_row ∷ [])).0 in
    (after ≡ old_row ∷ []) × (find_by_request_id none (pos 500) (bytes "r-1") after ≡ ok none)
expired_rows_block_example =
    expired_rows_block (pos 500) (bytes "r-1") (quote (bytes "alpha") (pos 900000) ∷ [])
      (old_row ∷ []) (inl (refl, refl), tt) ((λ e. omega arith), tt)
