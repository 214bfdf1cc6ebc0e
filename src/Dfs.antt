-- ===== src/Dfs.antt =====
-- smbprotocol/dfs.py: the cached referrals and domains, and smbclient/_pool.py: the lookup in the caches.
-- Times are whole ticks of the clock, and a referral is an entry of version 2 or later.
pub mod Domains
pub mod Cache
pub mod Hints
pub mod Hits
pub mod Longest
pub mod Runs
use smbprotocol.Prelude.{
  ℕ, zero, suc, ◌+◌, List, [], ◌∷◌, map, Bool, true, false, not, ◌&&◌, Option, none, some, Result,
  ok, err, ◌>>=◌, index_error, value_error, leb, ◌==◌, if◌then◌else◌, get_elem?, length,
}
use smbprotocol.Files.Modes.{Chars}

-- An entry of the `referral_entries` of a response.
pub record Referral : Type 0 where
  pub dfs_path : Chars
  pub network_address : Chars
  pub target_set_boundary : Bool
  pub root_targets : Bool
  pub time_to_live : ℕ

-- `DFSTarget`
pub record Target : Type 0 where
  pub target_path : Chars
  pub set_boundary : Bool

-- `ReferralEntry`
pub record ReferralEntry : Type 0 where
  pub referrals : List Referral
  pub start_time : ℕ
  pub target_hint_idx : ℕ

-- `a == b` of strings and of targets.
abbrev pub chars_eq : Chars → Chars → Bool
chars_eq [] [] = true
chars_eq [] (d ∷ ds) = false
chars_eq (c ∷ cs) [] = false
chars_eq (c ∷ cs) (d ∷ ds) = if c == d then chars_eq cs ds else false

abbrev pub bool_eq : Bool → Bool → Bool
bool_eq true b = b
bool_eq false b = not b

abbrev pub target_eq : Target → Target → Bool
target_eq t u = chars_eq t.target_path u.target_path && bool_eq t.set_boundary u.set_boundary

-- `items[idx]`
abbrev pub item {ℓ} : {A : Type ℓ} → List A → ℕ → Result A
item xs idx = elim (get_elem? xs idx) [ some x ↦ ok x | none ↦ err index_error ]

-- The referral that the properties read.
abbrev pub hinted : ReferralEntry → Result Referral
hinted e = item e.referrals e.target_hint_idx

unfoldable pub dfs_path : ReferralEntry → Result Chars
dfs_path e = hinted e >>= λ r. ok r.dfs_path

unfoldable pub is_root : ReferralEntry → Result Bool
is_root e = hinted e >>= λ r. ok r.root_targets

-- `is_expired` at a time: `(now - start_time) - time_to_live >= 0`.
unfoldable pub is_expired : ℕ → ReferralEntry → Result Bool
is_expired now e = hinted e >>= λ r. ok (leb (e.start_time + r.time_to_live) now)

abbrev pub target_of : Referral → Target
target_of r = record { target_path = r.network_address; set_boundary = r.target_set_boundary }

-- `target_list` and `target_hint`
abbrev pub target_list : ReferralEntry → List Target
target_list e = map target_of e.referrals

unfoldable pub target_hint : ReferralEntry → Result Target
target_hint e = item (target_list e) e.target_hint_idx

-- The setter of `target_hint`: the first index at which the target stands.
unfoldable pub find_target : Target → ℕ → List Target → Result ℕ
find_target value idx [] = err value_error
find_target value idx (target ∷ targets) =
    if target_eq target value then ok idx else find_target value (suc idx) targets

unfoldable pub set_target_hint : ReferralEntry → Target → Result ReferralEntry
unfolding find_target
set_target_hint e value = do
  idx ← find_target value 0 (target_list e)
  ok (record e { target_hint_idx = idx })

-- The loop of `__iter__`, from an index on.
unfoldable pub others : ℕ → ℕ → List Target → List Target
others hint idx [] = []
others hint idx (target ∷ targets) =
    let rest = others hint (suc idx) targets in if idx == hint then rest else target ∷ rest

-- `__iter__`
unfoldable pub iterate : ReferralEntry → Result (List Target)
unfolding target_hint others
iterate e = do first ← target_hint e; ok (first ∷ others e.target_hint_idx 0 (target_list e))
