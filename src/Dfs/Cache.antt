-- ===== src/Dfs/Cache.antt =====
-- smbclient/_pool.py, `ClientConfig`: the cache of referrals.
use smbprotocol.Prelude.{
  ℕ, List, [], ◌∷◌, ◌++◌, Bool, true, false, not, Option, none, some, Result, ok, ◌>>=◌, ltb, ◌==◌,
  if◌then◌else◌, length,
}
use smbprotocol.Files.Modes.{Chars}
use smbprotocol.Dfs.{ReferralEntry, Referral, chars_eq, dfs_path, is_expired}

-- `cache_referral`: `number_of_referrals` and the entry that `ReferralEntry(referral)` is at this time.
unfoldable pub cache_referral : List ReferralEntry → ℕ → ℕ → List Referral → List ReferralEntry
cache_referral cache now number_of_referrals referrals =
    if number_of_referrals == 0
    then cache
    else cache ++ (record { referrals = referrals; start_time = now; target_hint_idx = 0 } ∷ [])

-- A list comprehension whose condition may raise.
unfoldable pub select :
    (ReferralEntry → Result Bool) → List ReferralEntry → Result (List ReferralEntry)
select test [] = ok []
select test (e ∷ cache) = do
  keep ← test e
  rest ← select test cache
  ok (if keep then e ∷ rest else rest)

abbrev pub is_live : ℕ → ReferralEntry → Result Bool
is_live now e = is_expired now e >>= λ b. ok (not b)

-- `_clear_expired_cache`
unfoldable pub clear_expired_cache : ℕ → List ReferralEntry → Result (List ReferralEntry)
unfolding select is_expired
clear_expired_cache now cache = select (is_live now) cache

-- `[p for p in path.split("\\") if p]`, with the word that has begun.
abbrev add_word : Chars → List Chars → List Chars
add_word [] words = words
add_word (c ∷ cs) words = (c ∷ cs) ∷ words

unfoldable pub components_from : Chars → Chars → List Chars
components_from word [] = add_word word []
components_from word (c ∷ path) = elim (c == 92) [
  | true ↦ add_word word (components_from [] path)
  | false ↦ components_from (word ++ (c ∷ [])) path
]

abbrev pub components : Chars → List Chars
components path = components_from [] path

-- The loop over the components of a referral.
unfoldable pub is_prefix : List Chars → List Chars → Bool
is_prefix [] path = true
is_prefix (c ∷ cs) [] = false
is_prefix (c ∷ cs) (p ∷ path) = if chars_eq c p then is_prefix cs path else false

unfoldable pub matches : List Chars → ReferralEntry → Result Bool
unfolding dfs_path components_from is_prefix
matches path e = dfs_path e >>= λ p. ok (is_prefix (components p) path)

-- The key that the hits are sorted by, and `hits.sort(key=…, reverse=True)`, which keeps the order of
-- hits of one length.
unfoldable pub sort_key : ReferralEntry → Result ℕ
unfolding dfs_path
sort_key e = dfs_path e >>= λ p. ok (length p)

unfoldable pub with_keys : List ReferralEntry → Result (List (ℕ × ReferralEntry))
unfolding sort_key
with_keys [] = ok []
with_keys (e ∷ hits) = do n ← sort_key e; rest ← with_keys hits; ok ((n, e) ∷ rest)

abbrev pub insert : ℕ × ReferralEntry → List (ℕ × ReferralEntry) → List (ℕ × ReferralEntry)
insert hit [] = hit ∷ []
insert hit (other ∷ hits) =
    let rest = insert hit hits in if ltb hit.0 other.0 then other ∷ rest else hit ∷ other ∷ hits

abbrev pub sort : List (ℕ × ReferralEntry) → List (ℕ × ReferralEntry)
sort [] = []
sort (hit ∷ hits) = insert hit (sort hits)

-- `hits[0]`, if there are hits.
abbrev pub first_hit : List (ℕ × ReferralEntry) → Option ReferralEntry
first_hit [] = none
first_hit (hit ∷ hits) = some hit.1

-- `lookup_referral` at a time: the cache that is left, and the referral.
unfoldable pub lookup_referral :
    ℕ → List Chars → List ReferralEntry → Result (List ReferralEntry × Option ReferralEntry)
unfolding clear_expired_cache select matches with_keys
lookup_referral now path cache = do
  live ← clear_expired_cache now cache
  hits ← select (matches path) live
  keyed ← with_keys hits
  ok (live, first_hit (sort keyed))
