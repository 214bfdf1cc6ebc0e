-- ===== src/Dfs/Runs.antt =====
-- Runs of the referral caches: for each result, an input where its conditions hold.
use smbprotocol.Prelude.{
  ℕ, ◌≡◌, refl, sym, subst, [], ◌∷◌, ◌++◌, List, true, false, Option, none, some, ok, arith, ◌↔◌,
  inl, inr,
}
use smbprotocol.Files.Modes.{Chars}
use smbprotocol.Dfs.{
  Referral, Target, ReferralEntry, target_list, target_hint, set_target_hint, find_target, dfs_path,
  is_expired,
}
use smbprotocol.Dfs.Hints.{IsValid, TriesFirst, set_target_hint-TriesFirst}
use smbprotocol.Dfs.Cache.{
  lookup_referral, clear_expired_cache, select, matches, components_from, is_prefix, with_keys,
  sort_key,
}
use smbprotocol.Dfs.Hits.{Mem}
use smbprotocol.Dfs.Longest.{IsLongest, lookup_referral-IsLongest}
use smbprotocol.Dfs.Domains.{DomainEntry, process_dc_referral, dc_hint, has_name}
use smbprotocol.Dfs.Domains.Laws.{process_dc_referral-extends}

-- A referral for a path, to a server.
abbrev refers : Chars → ℕ → Referral
refers path server = record {
  dfs_path = path;
  network_address = 92 ∷ server ∷ [];
  target_set_boundary = false;
  root_targets = false;
  time_to_live = 10;
}

abbrev server_a : Target
server_a = record { target_path = 92 ∷ 1 ∷ []; set_boundary = false }

abbrev server_b : Target
server_b = record { target_path = 92 ∷ 2 ∷ []; set_boundary = false }

-- The entries of `\d` and `\d\s`.
abbrev root_entry : ReferralEntry
root_entry = record {
  referrals = refers (92 ∷ 100 ∷ []) 1 ∷ refers (92 ∷ 100 ∷ []) 2 ∷ [];
  start_time = 0;
  target_hint_idx = 0;
}

abbrev share_entry : ReferralEntry
share_entry = record {
  referrals = refers (92 ∷ 100 ∷ 92 ∷ 115 ∷ []) 3 ∷ [];
  start_time = 0;
  target_hint_idx = 0;
}

abbrev test_cache : List ReferralEntry
test_cache = root_entry ∷ share_entry ∷ []

set_target_hint-TriesFirst_example :
    let e' = record root_entry { target_hint_idx = 1 } in
    (target_list e' ≡ target_list root_entry)
    × (target_hint e' ≡ ok server_b)
    × TriesFirst e' server_b
unfolding set_target_hint find_target
set_target_hint-TriesFirst_example = set_target_hint-TriesFirst root_entry server_b refl

test_cache-IsValid : (e : ReferralEntry) → Mem e test_cache → IsValid e
test_cache-IsValid e (inl same) = subst IsValid (sym same) (omega arith)
test_cache-IsValid e (inr (inl same)) = subst IsValid (sym same) (omega arith)
test_cache-IsValid e (inr (inr m)) = absurd m

lookup_referral-IsLongest_example :
    (live : List ReferralEntry) × (found : Option ReferralEntry) × (lookup_referral 5
        ((100 ∷ []) ∷ (115 ∷ []) ∷ [])
        test_cache
      ≡ ok (live, found))
    × ((e : ReferralEntry) → Mem e live ↔ (Mem e test_cache × (is_expired 5 e ≡ ok false)))
    × IsLongest 5 ((100 ∷ []) ∷ (115 ∷ []) ∷ []) test_cache found
lookup_referral-IsLongest_example =
    lookup_referral-IsLongest 5 ((100 ∷ []) ∷ (115 ∷ []) ∷ []) test_cache test_cache-IsValid

-- The longer path is found, and after ten ticks nothing is.
longer_found :
    lookup_referral 5 ((100 ∷ []) ∷ (115 ∷ []) ∷ []) test_cache ≡ ok (test_cache, some share_entry)
unfolding lookup_referral clear_expired_cache select matches components_from is_prefix with_keys
    sort_key dfs_path is_expired
longer_found = refl

nothing_left : lookup_referral 10 ((100 ∷ []) ∷ (115 ∷ []) ∷ []) test_cache ≡ ok ([], none)
unfolding lookup_referral clear_expired_cache select matches components_from is_prefix with_keys
    sort_key dfs_path is_expired
nothing_left = refl

abbrev test_domain : DomainEntry
test_domain = record {
  domain_list = (1 ∷ []) ∷ [];
  domain_name = 92 ∷ 100 ∷ [];
  time_to_live = 10;
  start_time = 0;
  domain_hint_idx = some 0;
}

process_dc_referral-extends_example :
    let e' = process_dc_referral test_domain ((1 ∷ []) ∷ (2 ∷ []) ∷ []) in
    (added : List Chars) × (e'.domain_list ≡ ((1 ∷ []) ∷ []) ++ added)
    × ((x : Chars) → Mem x ((1 ∷ []) ∷ (2 ∷ []) ∷ []) → has_name x e'.domain_list ≡ true)
    × ((h : Chars) → dc_hint test_domain ≡ ok h → dc_hint e' ≡ ok h)
process_dc_referral-extends_example =
    process_dc_referral-extends test_domain ((1 ∷ []) ∷ (2 ∷ []) ∷ [])
