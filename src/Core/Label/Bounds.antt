-- ===== src/Core/Label/Bounds.antt =====
-- Which labels are accepted, and with which error the others are refused.
use k_engram.Prelude.{◌≤◌, ◌<◌, ◌≡◌, ◌≢◌, refl, ◌↔◌, [], ◌∷◌, arith, ok, err}
use k_engram.Text.{Text, codes, byte_len}
use k_engram.Core.Label.{
  empty, too_long, scope_max_len, new_scope, global, source_empty, source_too_long, source_max_len,
  new_source,
}

-- A scope is made of exactly the texts of 1 to 256 bytes, unchanged; the empty text and a longer
-- one have their own errors, the second with the number of bytes.
pub new_scope_cases :
    (s : Text)
    → ((new_scope s ≡ ok (record { text = s })) ↔ ((s ≢ []) × (byte_len s ≤ scope_max_len)))
      × ((new_scope s ≡ err empty) ↔ (s ≡ []))
      × ((new_scope s ≡ err (too_long (byte_len s))) ↔ (scope_max_len < byte_len s))
unfolding new_scope byte_len
new_scope_cases [] = ground arith
new_scope_cases (c ∷ s) = ground arith

-- So for sources, with 128 bytes.
pub new_source_cases :
    (s : Text)
    → ((new_source s ≡ ok (record { text = s })) ↔ ((s ≢ []) × (byte_len s ≤ source_max_len)))
      × ((new_source s ≡ err source_empty) ↔ (s ≡ []))
      × ((new_source s ≡ err (source_too_long (byte_len s))) ↔ (source_max_len < byte_len s))
unfolding new_source byte_len
new_source_cases [] = ground arith
new_source_cases (c ∷ s) = ground arith

-- The default scope is accepted.
pub new_scope-global : new_scope (codes "global") ≡ ok global
unfolding new_scope global byte_len
new_scope-global = refl
