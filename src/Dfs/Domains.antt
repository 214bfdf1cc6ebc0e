-- ===== src/Dfs/Domains.antt =====
-- smbprotocol/dfs.py, `DomainEntry`: the domain controllers that are known of a domain.
pub mod Laws
use smbprotocol.Prelude.{
  ℕ, zero, suc, ◌+◌, ◌≤◌, ◌<◌, ◌≡◌, refl, List, [], ◌∷◌, ◌++◌, Bool, true, false, not, ◌&&◌, Option,
  none, some, Result, ok, err, ◌>>=◌, type_error, value_error, leb, ◌==◌, if◌then◌else◌, length, ap,
  arith, length-append,
}
use smbprotocol.Files.Modes.{Chars}
use smbprotocol.Dfs.{chars_eq, item}

pub record DomainEntry : Type 0 where
  pub domain_list : List Chars
  pub domain_name : Chars
  pub time_to_live : ℕ
  pub start_time : ℕ
  pub domain_hint_idx : Option ℕ

-- `value in items`
abbrev pub has_name : Chars → List Chars → Bool
has_name value [] = false
has_name value (x ∷ xs) = if chars_eq x value then true else has_name value xs

-- `dc_hint`; indexing with None is a TypeError.
unfoldable pub dc_hint : DomainEntry → Result Chars
dc_hint e = elim e.domain_hint_idx [ none ↦ err type_error | some idx ↦ item e.domain_list idx ]

-- The setter of `dc_hint`.
unfoldable pub find_name : Chars → ℕ → List Chars → Result ℕ
find_name value idx [] = err value_error
find_name value idx (x ∷ xs) = if chars_eq x value then ok idx else find_name value (suc idx) xs

unfoldable pub set_dc_hint : DomainEntry → Chars → Result DomainEntry
unfolding find_name
set_dc_hint e value = do
  idx ← find_name value 0 e.domain_list
  ok (record e { domain_hint_idx = some idx })

abbrev pub is_expired : ℕ → DomainEntry → Bool
is_expired now e = leb (e.start_time + e.time_to_live) now

unfoldable pub is_valid : ℕ → DomainEntry → Bool
is_valid now e = elim e.domain_hint_idx [ none ↦ false | some _ ↦ not (is_expired now e) ]

-- The hostnames of the entries, appended where they are new.
unfoldable pub add_names : List Chars → List Chars → List Chars
add_names domain_list [] = domain_list
add_names domain_list (dc_hostname ∷ names) =
    add_names
      (if has_name dc_hostname domain_list then domain_list else domain_list ++ (dc_hostname ∷ []))
      names

-- `process_dc_referral`, on the hostnames of the entries one after the other.
unfoldable pub process_dc_referral : DomainEntry → List Chars → DomainEntry
unfolding add_names
process_dc_referral e names = record e {
  domain_hint_idx = elim e.domain_hint_idx [ none ↦ some 0 | some idx ↦ some idx ];
  domain_list = add_names e.domain_list names;
}

-- `ClientConfig.lookup_domain`; `lower` is `str.lower`.
unfoldable pub lookup_domain : (Chars → Chars) → List DomainEntry → Chars → Option DomainEntry
lookup_domain lower [] domain_name = none
lookup_domain lower (domain ∷ cache) domain_name =
    if chars_eq (lower domain.domain_name) (92 ∷ lower domain_name)
    then some domain
    else lookup_domain lower cache domain_name
