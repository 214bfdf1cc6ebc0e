-- ===== src/Dfs/Longest.antt =====
-- smbclient/_pool.py, `lookup_referral`: the longest live prefix of the path.
use smbprotocol.Prelude.{
  ap₂, >>=-eq-ok, Bool-cases, ◌++◌, false, Result, err, ℕ, ◌+◌, ◌≤◌, ◌≡◌, refl, sym, ap, ◌∙◌, List,
  [], ◌∷◌, Bool, true, not, Option, none, some, ok, ◌>>=◌, leb, length, arith, ok-injective, inl,
  inr, ◌↔◌,
}
use smbprotocol.Files.Modes.{Chars}
use smbprotocol.Dfs.{chars_eq, ReferralEntry, dfs_path, is_expired}
use smbprotocol.Dfs.Hints.{IsValid, chars_eq_sound, chars_eq_refl}
use smbprotocol.Dfs.Cache.{
  select, is_live, clear_expired_cache, matches, sort_key, with_keys, sort, first_hit,
  lookup_referral, is_prefix, components,
}
use smbprotocol.Dfs.Hits.{
  Mem, Keeps, Keyed, Hits, Descends, select-Keeps, with_keys-Keyed, sort-Mem, sort-Descends,
  hinted-found,
}

-- A cached entry that has not expired and whose components are the first ones of the path.
abbrev pub IsCandidate : ℕ → List Chars → List ReferralEntry → ReferralEntry → Type 0
IsCandidate now path cache e =
    Mem e cache
    × (is_expired now e ≡ ok false)
    × (p : Chars) × (rest : List Chars) × (dfs_path e ≡ ok p)
    × (path ≡ components p ++ rest)

-- The result of a lookup: no entry is a candidate, or a candidate with a longest path.
abbrev pub IsLongest : ℕ → List Chars → List ReferralEntry → Option ReferralEntry → Type 0
IsLongest now path cache none = (e : ReferralEntry) → IsCandidate now path cache e → ⊥
IsLongest now path cache (some e) =
    IsCandidate now path cache e
    × ((e' : ReferralEntry) (p p' : Chars)
        → IsCandidate now path cache e'
        → dfs_path e ≡ ok p
        → dfs_path e' ≡ ok p'
        → length p' ≤ length p)

-- The same by the tests of the code.
abbrev IsLongestHit : ℕ → List Chars → List ReferralEntry → Option ReferralEntry → Type 0
IsLongestHit now path cache none =
    (e : ReferralEntry) → Mem e cache → is_live now e ≡ ok true → matches path e ≡ ok true → ⊥
IsLongestHit now path cache (some e) =
    Mem e cache
    × (is_live now e ≡ ok true)
    × (matches path e ≡ ok true)
    × (n : ℕ) × (sort_key e ≡ ok n)
    × ((e' : ReferralEntry) (k : ℕ)
        → Mem e' cache
        → is_live now e' ≡ ok true
        → matches path e' ≡ ok true
        → sort_key e' ≡ ok k
        → k ≤ n)

is_live-Decides : (now : ℕ) (e : ReferralEntry) → IsValid e → (b : Bool) × (is_live now e ≡ ok b)
unfolding is_expired
is_live-Decides now e valid =
    let (r, found) = hinted-found e valid in
    (
      _,
      ap (λ h. (h >>= λ r. ok (leb (e.start_time + r.time_to_live) now)) >>= λ b. ok (not b)) found,
    )

matches-Decides :
    (path : List Chars) (e : ReferralEntry) → IsValid e → (b : Bool) × (matches path e ≡ ok b)
unfolding matches dfs_path
matches-Decides path e valid =
    let (r, found) = hinted-found e valid in
    (_, ap (λ h. (h >>= λ r. ok r.dfs_path) >>= λ p. ok (is_prefix (components p) path)) found)

sort_key-Decides : (e : ReferralEntry) → IsValid e → (n : ℕ) × (sort_key e ≡ ok n)
unfolding sort_key dfs_path
sort_key-Decides e valid =
    let (r, found) = hinted-found e valid in
    (_, ap (λ h. (h >>= λ r. ok r.dfs_path) >>= λ p. ok (length p)) found)

module _ (now : ℕ) (path : List Chars) (cache live hits : List ReferralEntry) (keyed : Hits)
    (keeps : Keeps (is_live now) cache live) (hit_keeps : Keeps (matches path) live hits)
    (keys : Keyed hits keyed) where
  -- An entry that is live and matches is among the hits with its key.
  hit_found :
      (e : ReferralEntry)
      → Mem e cache
      → is_live now e ≡ ok true
      → matches path e ≡ ok true
      → (n : ℕ) × (sort_key e ≡ ok n) × Mem (n, e) keyed
  hit_found e m l t = keys.1 e ((hit_keeps e).1 ((keeps e).1 (m, l), t))

  first_hit-IsLongestHit :
      (sorted : Hits)
      → ((x : ℕ × ReferralEntry) → Mem x sorted ↔ Mem x keyed)
      → Descends sorted
      → IsLongestHit now path cache (first_hit sorted)
  first_hit-IsLongestHit [] same d =
      λ e m l t. let (n, key, there) = hit_found e m l t in (same (n, e)).1 there
  first_hit-IsLongestHit ((n, e) ∷ sorted) same d =
      let (hit, key) = keys.0 n e ((same (n, e)).0 (inl refl)) in
      let (alive, matching) = (hit_keeps e).0 hit in
      let (cached, is_alive) = (keeps e).0 alive in
      (
        cached,
        is_alive,
        matching,
        n,
        key,
        λ e' k m l t key'.
            let (j, key'', there) = hit_found e' m l t in
            shorter e' k j (ok-injective (sym key' ∙ key'')) ((same (j, e')).1 there),
      )
    where
      shorter : (e' : ReferralEntry) (k j : ℕ) → k ≡ j → Mem (j, e') ((n, e) ∷ sorted) → k ≤ n
      shorter e' k j at_ (inl is) = omega (arith, ap (λ (p : ℕ × ReferralEntry). p.0) is)
      shorter e' k j at_ (inr m) = omega (arith, d (j, e') m)

live_iff : (now : ℕ) (e : ReferralEntry) → (is_live now e ≡ ok true) ↔ (is_expired now e ≡ ok false)
live_iff now e = go (is_expired now e)
  where
    go : (r : Result Bool) → ((r >>= λ b. ok (not b)) ≡ ok true) ↔ (r ≡ ok false)
    go (err x) = (λ q. cc, λ q. cc)
    go (ok true) = (λ q. cc, λ q. cc)
    go (ok false) = (λ q. refl, λ q. refl)

is_prefix_sound :
    (cs path : List Chars) → is_prefix cs path ≡ true → (rest : List Chars) × (path ≡ cs ++ rest)
unfolding is_prefix
is_prefix_sound [] path e = (path, refl)
is_prefix_sound (c ∷ cs) [] e = cc
is_prefix_sound (c ∷ cs) (p ∷ path) e = elim (Bool-cases (chars_eq c p)) [
  | inl same ↦
      let (rest, found) = is_prefix_sound cs path (rw same at e) in
      (rest, ap₂ ◌∷◌ (sym (chars_eq_sound c p same)) found)
  | inr other ↦ absurd (differ (rw other at e))
]
  where
    differ : false ≡ true → ⊥
    differ q = cc

is_prefix-append : (cs rest : List Chars) → is_prefix cs (cs ++ rest) ≡ true
unfolding is_prefix
is_prefix-append [] rest = refl
is_prefix-append (c ∷ cs) rest = rw (is_prefix, chars_eq_refl c) (is_prefix-append cs rest)

matches_iff :
    (path : List Chars) (e : ReferralEntry)
    → (matches path e ≡ ok true)
      ↔ ((p : Chars) × (rest : List Chars) × (dfs_path e ≡ ok p) × (path ≡ components p ++ rest))
unfolding matches
matches_iff path e = (into, out)
  where
    into :
        matches path e ≡ ok true
        → (p : Chars) × (rest : List Chars) × (dfs_path e ≡ ok p) × (path ≡ components p ++ rest)
    into h =
        let (p, found, tested) =
          >>=-eq-ok (dfs_path e) (λ p. ok (is_prefix (components p) path)) h in
        let (rest, same) = is_prefix_sound (components p) path (ok-injective tested) in
        (p, rest, found, same)

    out :
        (p : Chars) × (rest : List Chars) × (dfs_path e ≡ ok p) × (path ≡ components p ++ rest)
        → matches path e ≡ ok true
    out (p, rest, found, same) =
        ap (λ h. h >>= λ p. ok (is_prefix (components p) path)) found
        ∙ ap ok (ap (is_prefix (components p)) same ∙ is_prefix-append (components p) rest)

sort_key-length : (e : ReferralEntry) (p : Chars) → dfs_path e ≡ ok p → sort_key e ≡ ok (length p)
unfolding sort_key
sort_key-length e p found = ap (λ h. h >>= λ p. ok (length p)) found

hit-IsLongest :
    (now : ℕ) (path : List Chars) (cache : List ReferralEntry) (found : Option ReferralEntry)
    → IsLongestHit now path cache found
    → IsLongest now path cache found
hit-IsLongest now path cache none none_hit =
    λ e c. none_hit e c.0 ((live_iff now e).1 c.1) ((matches_iff path e).1 (c.2, c.3, c.4, c.5))
hit-IsLongest now path cache (some e) (m, l, t, n, key, longest) =
    let (q, rest, found, same) = (matches_iff path e).0 t in
    (
      (m, (live_iff now e).0 l, q, rest, found, same),
      λ e' p p' c at_ at_'. omega (
        arith,
        ok-injective (sym key ∙ sort_key-length e p at_),
        longest e' (length p') c.0 ((live_iff now e').1 c.1)
            ((matches_iff path e').1 (c.2, c.3, c.4, c.5)) (sort_key-length e' p' at_'),
      ),
    )

-- On a cache whose hints are in range a lookup always returns: it drops the entries that have expired and
-- no others, and finds a longest one of the entries left whose components are a prefix of the path, or
-- nothing if there is none.
pub lookup_referral-IsLongest :
    (now : ℕ) (path : List Chars) (cache : List ReferralEntry)
    → ((e : ReferralEntry) → Mem e cache → IsValid e)
    → (live : List ReferralEntry) × (found : Option ReferralEntry) × (lookup_referral now path cache
        ≡ ok (live, found))
      × ((e : ReferralEntry) → Mem e live ↔ (Mem e cache × (is_expired now e ≡ ok false)))
      × IsLongest now path cache found
unfolding lookup_referral clear_expired_cache
lookup_referral-IsLongest now path cache valid =
    let (live, cleared, keeps) =
      select-Keeps (is_live now) cache (λ e m. is_live-Decides now e (valid e m)) in
    let valid' : (e : ReferralEntry) → Mem e live → IsValid e = λ e m. valid e ((keeps e).0 m).0 in
    let (hits, hit, hit_keeps) =
      select-Keeps (matches path) live (λ e m. matches-Decides path e (valid' e m)) in
    let (keyed, with_, keys) =
      with_keys-Keyed hits (λ e m. sort_key-Decides e (valid' e ((hit_keeps e).0 m).0)) in
    (
      live,
      first_hit (sort keyed),
      ap
            (λ r. r >>= λ live. select (matches path) live >>= λ hits.
              with_keys hits >>= λ keyed. ok (live, first_hit (sort keyed)))
            cleared
          ∙ (ap (λ r. r >>= λ hits. with_keys hits >>= λ keyed. ok (live, first_hit (sort keyed)))
                hit
              ∙ ap (λ r. r >>= λ keyed. ok (live, first_hit (sort keyed))) with_),
      λ e. (
        λ m. let (there, alive) = (keeps e).0 m in (there, (live_iff now e).0 alive),
        λ x. (keeps e).1 (x.0, (live_iff now e).1 x.1),
      ),
      hit-IsLongest now path cache (first_hit (sort keyed)) (
          first_hit-IsLongestHit now path cache live hits keyed keeps hit_keeps keys (sort keyed)
            (sort-Mem keyed) (sort-Descends keyed)),
    )
