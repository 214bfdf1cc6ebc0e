-- ===== src/Dfs/Hits.antt =====
-- smbclient/_pool.py, `lookup_referral`: the comprehension, the keys and the sort.
use smbprotocol.Prelude.{
  ℕ, ◌≤◌, ◌<◌, ◌≡◌, refl, sym, ap, ◌∙◌, List, [], ◌∷◌, Bool, true, false, Result, ok, ltb, arith,
  Bool-cases, inl, inr, ◌⊎◌, ◌↔◌, ltb→lt,
}
use smbprotocol.Dfs.{ReferralEntry, Referral, hinted}
use smbprotocol.Dfs.Hints.{IsValid, item-some, item-found}
use smbprotocol.Dfs.Cache.{select, sort_key, with_keys, insert, sort}

abbrev pub Mem : {A : Type 0} → A → List A → Type 0
Mem x [] = ⊥
Mem x (y ∷ ys) = (x ≡ y) ⊎ Mem x ys

pub hinted-found : (e : ReferralEntry) → IsValid e → (r : Referral) × (hinted e ≡ ok r)
hinted-found e valid =
    let (r, found) = item-some e.referrals e.target_hint_idx valid in
    (r, item-found e.referrals e.target_hint_idx found)

-- A test that returns for each entry of a list.
abbrev pub Decides : (ReferralEntry → Result Bool) → List ReferralEntry → Type 0
Decides test cache = (e : ReferralEntry) → Mem e cache → (b : Bool) × (test e ≡ ok b)

-- What the comprehension keeps.
abbrev pub Keeps : (ReferralEntry → Result Bool) → List ReferralEntry → List ReferralEntry → Type 0
Keeps test cache kept = (e : ReferralEntry) → Mem e kept ↔ (Mem e cache × (test e ≡ ok true))

pub select-Keeps :
    (test : ReferralEntry → Result Bool) (cache : List ReferralEntry)
    → Decides test cache
    → (kept : List ReferralEntry) × (select test cache ≡ ok kept) × Keeps test cache kept
unfolding select
select-Keeps test [] d = ([], refl, λ e. (λ m. absurd m, λ x. absurd x.0))
select-Keeps test (x ∷ cache) d =
    let (rest, selected, keeps) = select-Keeps test cache (λ e m. d e (inr m)) in
    let (b, decided) = d x (inl refl) in keep b decided rest selected keeps
  where
    keep :
        (b : Bool)
        → test x ≡ ok b
        → (rest : List ReferralEntry) → select test cache ≡ ok rest
        → Keeps test cache rest
        → (kept : List ReferralEntry) × (select test (x ∷ cache) ≡ ok kept)
          × Keeps test (x ∷ cache) kept
    keep true decided rest selected keeps =
        (x ∷ rest, rw (select, decided, selected) refl, λ e. (into e, out e))
      where
        into : (e : ReferralEntry) → Mem e (x ∷ rest) → Mem e (x ∷ cache) × (test e ≡ ok true)
        into e (inl same) = (inl same, ap test same ∙ decided)
        into e (inr m) = let (there, t) = (keeps e).0 m in (inr there, t)

        out : (e : ReferralEntry) → Mem e (x ∷ cache) × (test e ≡ ok true) → Mem e (x ∷ rest)
        out e (inl same, t) = inl same
        out e (inr m, t) = inr ((keeps e).1 (m, t))
    keep false decided rest selected keeps =
        (rest, rw (select, decided, selected) refl, λ e. (into e, out e))
      where
        into : (e : ReferralEntry) → Mem e rest → Mem e (x ∷ cache) × (test e ≡ ok true)
        into e m = let (there, t) = (keeps e).0 m in (inr there, t)

        out : (e : ReferralEntry) → Mem e (x ∷ cache) × (test e ≡ ok true) → Mem e rest
        out e (inl same, t) = absurd (clash (sym (ap test same ∙ decided) ∙ t))
          where
            clash : ok false ≡ ok true → ⊥
            clash q = cc
        out e (inr m, t) = (keeps e).1 (m, t)

-- The hits with their keys.
abbrev pub Keyed : List ReferralEntry → List (ℕ × ReferralEntry) → Type 0
Keyed hits keyed =
    ((n : ℕ) (e : ReferralEntry) → Mem (n, e) keyed → Mem e hits × (sort_key e ≡ ok n))
    × ((e : ReferralEntry) → Mem e hits → (n : ℕ) × (sort_key e ≡ ok n) × Mem (n, e) keyed)

pub with_keys-Keyed :
    (hits : List ReferralEntry)
    → ((e : ReferralEntry) → Mem e hits → (n : ℕ) × (sort_key e ≡ ok n))
    → (keyed : List (ℕ × ReferralEntry)) × (with_keys hits ≡ ok keyed) × Keyed hits keyed
unfolding with_keys
with_keys-Keyed [] d = ([], refl, (λ n e m. absurd m, λ e m. absurd m))
with_keys-Keyed (x ∷ hits) d =
    let (keyed, found, (into, out)) = with_keys-Keyed hits (λ e m. d e (inr m)) in
    let (n, key) = d x (inl refl) in
    (
      (n, x) ∷ keyed,
      rw (with_keys, key, found) refl,
      (into' n key keyed into, out' n key keyed out),
    )
  where
    into' :
        (n : ℕ)
        → sort_key x ≡ ok n
        → (keyed : List (ℕ × ReferralEntry))
        → ((k : ℕ) (e : ReferralEntry) → Mem (k, e) keyed → Mem e hits × (sort_key e ≡ ok k))
        → (k : ℕ) (e : ReferralEntry) → Mem (k, e) ((n, x) ∷ keyed)
        → Mem e (x ∷ hits) × (sort_key e ≡ ok k)
    into' n key keyed into k e (inl same) = (
      inl (ap (λ (p : ℕ × ReferralEntry). p.1) same),
      ap (λ (p : ℕ × ReferralEntry). sort_key p.1) same
          ∙ (key ∙ ap (λ (p : ℕ × ReferralEntry). ok p.0) (sym same)),
    )
    into' n key keyed into k e (inr m) = let (there, found) = into k e m in (inr there, found)

    out' :
        (n : ℕ)
        → sort_key x ≡ ok n
        → (keyed : List (ℕ × ReferralEntry))
        → ((e : ReferralEntry) → Mem e hits → (k : ℕ) × (sort_key e ≡ ok k) × Mem (k, e) keyed)
        → (e : ReferralEntry) → Mem e (x ∷ hits)
        → (k : ℕ) × (sort_key e ≡ ok k) × Mem (k, e) ((n, x) ∷ keyed)
    out' n key keyed out e (inl same) = (n, ap sort_key same ∙ key, inl (ap (λ y. (n, y)) same))
    out' n key keyed out e (inr m) = let (k, found, there) = out e m in (k, found, inr there)

abbrev pub Hits : Type 0
Hits = List (ℕ × ReferralEntry)

insert-Mem :
    (hit : ℕ × ReferralEntry) (hits : Hits) (x : ℕ × ReferralEntry)
    → Mem x (insert hit hits) ↔ Mem x (hit ∷ hits)
insert-Mem hit [] x = (λ m. m, λ m. m)
insert-Mem hit (other ∷ hits) x = elim (Bool-cases (ltb hit.0 other.0)) [
  | inl less ↦ rw less (there (insert-Mem hit hits x), back (insert-Mem hit hits x))
  | inr more ↦ rw more (λ m. m, λ m. m)
]
  where
    there :
        (Mem x (insert hit hits) ↔ Mem x (hit ∷ hits))
        → Mem x (other ∷ insert hit hits)
        → Mem x (hit ∷ other ∷ hits)
    there i (inl same) = inr (inl same)
    there i (inr m) = apart (i.0 m)
      where
        apart : Mem x (hit ∷ hits) → Mem x (hit ∷ other ∷ hits)
        apart (inl same) = inl same
        apart (inr m) = inr (inr m)

    back :
        (Mem x (insert hit hits) ↔ Mem x (hit ∷ hits))
        → Mem x (hit ∷ other ∷ hits)
        → Mem x (other ∷ insert hit hits)
    back i (inl same) = inr (i.1 (inl same))
    back i (inr (inl same)) = inl same
    back i (inr (inr m)) = inr (i.1 (inr m))

Mem-tail :
    {A : Type 0} (x y : A) (ys zs : List A)
    → (Mem x ys → Mem x zs)
    → Mem x (y ∷ ys)
    → Mem x (y ∷ zs)
Mem-tail x y ys zs f (inl same) = inl same
Mem-tail x y ys zs f (inr m) = inr (f m)

pub sort-Mem : (hits : Hits) (x : ℕ × ReferralEntry) → Mem x (sort hits) ↔ Mem x hits
sort-Mem [] x = (λ m. m, λ m. m)
sort-Mem (hit ∷ hits) x =
    let (into, out) = sort-Mem hits x in
    let (inside, outside) = insert-Mem hit (sort hits) x in
    (
      λ m. Mem-tail x hit (sort hits) hits into (inside m),
      λ m. outside (Mem-tail x hit hits (sort hits) out m),
    )

-- No hit is longer than the first one.
abbrev pub Descends : Hits → Type 0
Descends [] = Unit
Descends (hit ∷ hits) = (x : ℕ × ReferralEntry) → Mem x hits → x.0 ≤ hit.0

insert-Descends :
    (hit : ℕ × ReferralEntry) (hits : Hits) → Descends hits → Descends (insert hit hits)
insert-Descends hit [] d = λ x m. absurd m
insert-Descends hit (other ∷ hits) d = elim (Bool-cases (ltb hit.0 other.0)) [
  | inl less ↦ rw less (λ x m. behind (ltb→lt hit.0 other.0 less) x ((insert-Mem hit hits x).0 m))
  | inr more ↦ rw more (λ x m. longest (ltb→ge hit.0 other.0 more) x m)
]
  where
    ltb→ge : (a b : ℕ) → ltb a b ≡ false → b ≤ a
    ltb→ge a b h = ground arith

    behind : hit.0 < other.0 → (x : ℕ × ReferralEntry) → Mem x (hit ∷ hits) → x.0 ≤ other.0
    behind h x (inl same) = omega (arith, ap (λ (p : ℕ × ReferralEntry). p.0) same)
    behind h x (inr m) = d x m

    longest : other.0 ≤ hit.0 → (x : ℕ × ReferralEntry) → Mem x (other ∷ hits) → x.0 ≤ hit.0
    longest h x (inl same) = omega (arith, ap (λ (p : ℕ × ReferralEntry). p.0) same)
    longest h x (inr m) = omega (arith, d x m)

pub sort-Descends : (hits : Hits) → Descends (sort hits)
sort-Descends [] = tt
sort-Descends (hit ∷ hits) = insert-Descends hit (sort hits) (sort-Descends hits)
