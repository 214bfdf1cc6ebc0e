-- ===== src/Dfs/Domains/Laws.antt =====
-- smbprotocol/dfs.py, `DomainEntry.process_dc_referral`: what it adds, and what it leaves.
use smbprotocol.Prelude.{
  ℕ, zero, suc, ◌≡◌, refl, sym, ap, ◌∙◌, subst, List, [], ◌∷◌, ◌++◌, true, Option, none, some, ok,
  if◌then◌else◌, Bool-cases, inl, inr, append-nil, append_assoc,
}
use smbprotocol.Files.Modes.{Chars}
use smbprotocol.Dfs.Hints.{chars_eq_refl}
use smbprotocol.Dfs.{chars_eq, item}
use smbprotocol.Dfs.Domains.{DomainEntry, has_name, add_names, process_dc_referral, dc_hint}
use smbprotocol.Dfs.Hits.{Mem}

has_name-append :
    (x : Chars) (xs ys : List Chars) → has_name x xs ≡ true → has_name x (xs ++ ys) ≡ true
has_name-append x [] ys e = cc
has_name-append x (y ∷ xs) ys e = elim (Bool-cases (chars_eq y x)) [
  | inl same ↦ rw same refl
  | inr other ↦ rw other (has_name-append x xs ys (rw other at e))
]

has_name-last : (x : Chars) (xs : List Chars) → has_name x (xs ++ (x ∷ [])) ≡ true
has_name-last x [] = rw (chars_eq_refl x) refl
has_name-last x (y ∷ xs) = elim (Bool-cases (chars_eq y x)) [
  | inl same ↦ rw same refl
  | inr other ↦ rw other (has_name-last x xs)
]

-- The list with one hostname.
abbrev with_name : Chars → List Chars → List Chars
with_name x xs = if has_name x xs then xs else xs ++ (x ∷ [])

with_name-has : (x : Chars) (xs : List Chars) → has_name x (with_name x xs) ≡ true
with_name-has x xs = elim (Bool-cases (has_name x xs)) [
  | inl there ↦ rw (there, there) refl
  | inr new ↦ rw new (has_name-last x xs)
]

with_name-extends :
    (x : Chars) (xs : List Chars) → (added : List Chars) × (with_name x xs ≡ xs ++ added)
with_name-extends x xs = elim (Bool-cases (has_name x xs)) [
  | inl there ↦ ([], rw there (sym (append-nil xs)))
  | inr new ↦ (x ∷ [], rw new refl)
]

add_names-extends :
    (xs names : List Chars)
    → (added : List Chars) × (add_names xs names ≡ xs ++ added)
      × ((x : Chars) → Mem x names → has_name x (add_names xs names) ≡ true)
unfolding add_names
add_names-extends xs [] = ([], sym (append-nil xs), λ x m. absurd m)
add_names-extends xs (n ∷ names) =
    let (one, grown) = with_name-extends n xs in
    let (added, all, has) = add_names-extends (with_name n xs) names in
    (
      one ++ added,
      all ∙ (ap (λ l. l ++ added) grown ∙ append_assoc xs one added),
      named added all has,
    )
  where
    named :
        (added : List Chars)
        → add_names (with_name n xs) names ≡ with_name n xs ++ added
        → ((x : Chars) → Mem x names → has_name x (add_names (with_name n xs) names) ≡ true)
        → (x : Chars) → Mem x (n ∷ names)
        → has_name x (add_names (with_name n xs) names) ≡ true
    named added all has x (inr m) = has x m
    named added all has x (inl same) =
        ap (has_name x) all
        ∙ has_name-append x (with_name n xs) added
            (subst (λ y. has_name y (with_name n xs) ≡ true) (sym same) (with_name-has n xs))

item-append : (xs ys : List Chars) (i : ℕ) {h : Chars} → item xs i ≡ ok h → item (xs ++ ys) i ≡ ok h
item-append [] ys i e = cc
item-append (x ∷ xs) ys zero e = e
item-append (x ∷ xs) ys (suc i) e = item-append xs ys i e

-- A referral appends hostnames to the list, which has every hostname of the referral afterwards, and a hint
-- that was there stays the hint.
pub process_dc_referral-extends :
    (e : DomainEntry) (names : List Chars)
    → let e' = process_dc_referral e names in
      (added : List Chars) × (e'.domain_list ≡ e.domain_list ++ added)
      × ((x : Chars) → Mem x names → has_name x e'.domain_list ≡ true)
      × ((h : Chars) → dc_hint e ≡ ok h → dc_hint e' ≡ ok h)
unfolding process_dc_referral dc_hint
process_dc_referral-extends e names =
    let (added, all, has) = add_names-extends e.domain_list names in
    (added, all, has, kept e.domain_hint_idx added all)
  where
    kept :
        (hint : Option ℕ) (added : List Chars)
        → add_names e.domain_list names ≡ e.domain_list ++ added
        → (h : Chars) → dc_hint (record e { domain_hint_idx = hint }) ≡ ok h
        → dc_hint (process_dc_referral (record e { domain_hint_idx = hint }) names) ≡ ok h
    kept none added all h e = cc
    kept (some i) added all h found =
        ap (λ l. item l i) all ∙ item-append e.domain_list added i found
